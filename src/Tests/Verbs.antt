-- ===== src/Tests/Verbs.antt =====
-- A client that comes back to its session.
use digital_twin_framework.Prelude.{
  ℕ, false, Text, codes, true, [], Option, none, some, lookup, insert, nat_eq, list_eq, list_beq,
  Result, ok, raise, value_error, ◌≡◌, refl, get_or_else, erase,
}
use digital_twin_framework.Dtype.Equality.{dtype_has_eq}
use digital_twin_framework.Runtime.Graph.{Job}
use digital_twin_framework.Service.Twin.{Twin}
use digital_twin_framework.Service.Registering.{
  Value, text, null, other, object, decoded, Policies, Registry, register_session, forced_policy,
  Registered, client_payload,
}
use digital_twin_framework.Service.Registering.Reattaching.{payload, reregistered_reattaches}

abbrev id_of : Option (Value ℕ) → Result (Option Text)
id_of none = ok none
id_of (some null) = ok none
id_of (some (text s)) = ok (some s)
id_of (some (object c)) = raise value_error
id_of (some other) = raise value_error

abbrev host : Policies ℕ
host = record {
  policy = λ d. id_of (lookup (codes "sid") d);
  conflict = λ sid. ok tt;
  opens = λ asked. get_or_else asked (codes "new");
}

abbrev empty_registry : Registry ℕ (Twin Job)
empty_registry = record { sessions = []; configs = [] }

abbrev first_answer : Registered ℕ (Twin Job)
first_answer = register_session host 0 (decoded (client_payload none (some 4))) empty_registry

registered_as_new : first_answer.0 ≡ ok (codes "new", false)
unfolding register_session client_payload forced_policy lookup insert erase list_beq
registered_as_new = refl

takes_new :
    host.policy (forced_policy (payload b'n' (codes "ew") (some 5))) ≡ ok (some (codes "new"))
unfolding client_payload forced_policy lookup insert erase list_beq
takes_new = refl

reregistered_reattaches_example :
    register_session host 0 (decoded (payload b'n' (codes "ew") (some 5))) first_answer.1
    ≡ (ok (codes "new", true), first_answer.1)
reregistered_reattaches_example =
    reregistered_reattaches host 0 (decoded (client_payload none (some 4))) b'n' (codes "ew") false
      (some 5) empty_registry registered_as_new takes_new refl
