-- ===== src/Tests/Services.antt =====
-- Requests of two sessions, and a client's versions.
use digital_twin_framework.Prelude.{
  ℕ, Text, codes, List, [], ◌∷◌, Option, ok, Dict, lookup, nat_eq, list_eq, length, ◌+◌, ◌≤◌, ◌↔◌,
  ◌≡◌, refl, arith, insert, list_beq, raise, value_error, ◌<◌,
}
use digital_twin_framework.Service.Wire.{
  envelope_margin, Versions, check_versions, encode_checked, encode_checked_exact,
}
use digital_twin_framework.Service.Wire.Compatible.{check_versions_exact, IsCompatible}
use digital_twin_framework.Service.Plugin.{
  Sessions, Session, twin_reply, twin_create, twin_id_ok, twin_owner, register_session,
  session_twin_create, forward, holds, new_session,
}
use digital_twin_framework.Service.Plugin.Ownership.Retrying.{create_retried}
use digital_twin_framework.Service.Plugin.Ownership.{IsOwned}
use digital_twin_framework.Service.Plugin.Ownership.Requests.{
  Request, registering, creating, serve_all, twin_ids_unique,
}

abbrev host : Text → Sessions ℕ → Option (Session ℕ)
host sid ss = lookup sid ss

-- The second session asks for the first one's twin, and then for one of its own.
abbrev requests : List (Request ℕ)
requests =
    registering (codes "s")
    ∷ registering (codes "t")
    ∷ creating (codes "s") (codes "a") 1
    ∷ creating (codes "t") (codes "a") 2
    ∷ creating (codes "t") (codes "b") 3
    ∷ []

twin_ids_unique_example : IsOwned (serve_all host requests [])
twin_ids_unique_example = twin_ids_unique host (λ sid ss. refl) requests

abbrev set_up : List (Request ℕ)
set_up = registering (codes "s") ∷ []

first-taken : (twin_create host (codes "s") (codes "a") 1 (serve_all host set_up [])).0 ≡ twin_reply
unfolding serve_all twin_create twin_id_ok twin_owner register_session session_twin_create forward
    holds new_session lookup insert list_beq
first-taken = refl

create_retried_example :
    let ss' = (twin_create host (codes "s") (codes "a") 1 (serve_all host set_up [])).1 in
    twin_create host (codes "s") (codes "a") 2 ss' ≡ (twin_reply, ss')
create_retried_example =
    create_retried host (λ sid ss. refl) set_up (codes "s") (codes "a") 1 2 first-taken

abbrev ours : Versions
ours = record { python = codes "3.12"; cloudpickle = codes "3.1.0"; digitaltwin = codes "0.1" }

abbrev theirs : Dict Text Text
theirs =
    (codes "python", codes "3.12")
    ∷ (codes "cloudpickle", codes "3.1.2")
    ∷ (codes "digitaltwin", codes "0.1")
    ∷ []

check_versions_exact_example : (check_versions ours theirs ≡ ok tt) ↔ IsCompatible ours theirs
check_versions_exact_example = check_versions_exact ours theirs

abbrev itself : Text → Text
itself b = b

abbrev byte : Text
byte = 1 ∷ []

encode_checked_exact_example :
    ((encode_checked 70000 itself byte ≡ ok byte)
      ↔ ((itself byte ≡ byte) × (length byte + envelope_margin ≤ 70000)))
    × ((encode_checked 70000 itself byte ≡ raise value_error)
        ↔ (70000 < length (itself byte) + envelope_margin))
encode_checked_exact_example = encode_checked_exact 70000 itself byte byte (omega arith)
