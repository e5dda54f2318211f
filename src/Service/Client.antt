-- ===== src/Service/Client.antt =====
-- The client's side of the service, `DTClient` of src/digitaltwin/service/client.py, as far as it
-- creates and observes twins, with `DTSession.twin_list`, src/digitaltwin/service/session.py. Time is
-- counted in milliseconds, on one clock that does not run backwards.
pub mod Waiting
pub mod Settled
use digital_twin_framework.Prelude.{
  ℕ, zero, suc, ◌+◌, Text, codes, Bool, true, false, List, [], ◌∷◌, Option, none, some, Dict,
  contains, Result, ok, raise, runtime_error, timeout_error, ◌>>=◌, ◌==◌, nat_eq, list_eq, find,
  ltb, if◌then◌else◌,
}
use Prim.Native.Nat.{◌/◌}
use digital_twin_framework.Stream.Address.{text_or}
use digital_twin_framework.Runtime.Lifecycle.{State, ready, running, stopped, failed}
use digital_twin_framework.Service.Twin.{
  Twin, TwinState, OwnState, own, of_runtime, initializing, init_failed, closed, state, last_error,
}

-- 0.5 s
abbrev pub poll_interval : ℕ
poll_interval = 500

abbrev pub ready_states : List Text
ready_states = codes "ready" ∷ codes "running" ∷ codes "stopped" ∷ []

-- An entry of `twin_list`, by what the client reads of it.
pub record Entry : Type 0 where
  pub twin_id : Text
  pub state : Text
  pub last_error : Option Text

-- The texts of the states.
abbrev pub state_text : TwinState → Text
state_text (own initializing) = codes "initializing"
state_text (own init_failed) = codes "failed"
state_text (own closed) = codes "closed"
state_text (of_runtime ready) = codes "ready"
state_text (of_runtime running) = codes "running"
state_text (of_runtime stopped) = codes "stopped"
state_text (of_runtime failed) = codes "failed"

-- `TwinInstance.summary`
unfoldable pub summary : {J : Type 0} → Text → Twin J → Entry
summary i t = record { twin_id = i; state = state_text (state t); last_error = last_error t }

-- `DTSession.twin_list`, of an active session.
unfoldable pub session_twin_list : {J : Type 0} → Dict Text (Twin J) → List Entry
unfolding summary
session_twin_list [] = []
session_twin_list ((i, t) ∷ twins) = summary i t ∷ session_twin_list twins

found : Option Entry → Result Entry
found none = raise runtime_error
found (some e) = ok e

-- `twin`, on what `twin_list` answered.
unfoldable pub twin : Text → Result (List Entry) → Result Entry
unfolding found
twin i answer = answer >>= λ entries. found (find (λ e. e.twin_id == i) entries)

-- One round of the loop of `wait_ready`, at the time after the answer: how it ends, if it does.
unfoldable pub verdict : ℕ → ℕ → Result Entry → Option (Result Text)
verdict deadline now (raise x) = some (raise x)
verdict deadline now (ok e) =
    if contains ready_states e.state
    then some (ok e.state)
    else if e.state == codes "failed"
    then some (raise runtime_error)
    else if ltb deadline now
    then some (raise timeout_error)
    else none

ended : Option (Result Text) → ℕ → Option (Result Text × ℕ) → Option (Result Text × ℕ)
ended (some r) now rest = some (r, now)
ended none now rest = rest

-- The service as the client sees it: what `twin_list` answers to a request of some time, and how
-- long that takes.
module _ (answer : ℕ → Result (List Entry)) (latency : ℕ → ℕ) where
  -- The loop of `wait_ready`: the result and the time of it, or nothing when the fuel runs out.
  unfoldable pub poll : ℕ → ℕ → Text → ℕ → Option (Result Text × ℕ)
  unfolding verdict twin ended
  poll zero deadline i now = none
  poll (suc n) deadline i now =
      let rest = poll n deadline i (now + latency now + poll_interval) in
      ended (verdict deadline (now + latency now) (twin i (answer now))) (now + latency now) rest

  unfoldable pub wait_ready : Text → ℕ → ℕ → Option (Result Text × ℕ)
  unfolding poll
  wait_ready i timeout now = poll (suc (suc (timeout / poll_interval))) (now + timeout) i now

  -- `create_twin`, on what the service answered to `twin_create`: the id, and when it returns.
  created : Result Text → Text → Bool → ℕ → ℕ → Option (Result Text × ℕ)
  unfolding wait_ready
  created (raise x) i wait timeout now = some (raise x, now)
  created (ok s) i false timeout now = some (ok i, now)
  created (ok s) i true timeout now =
      if contains ready_states s then some (ok i, now) else waited i (wait_ready i timeout now)
    where
      waited : Text → Option (Result Text × ℕ) → Option (Result Text × ℕ)
      waited i none = none
      waited i (some (ok s, t)) = some (ok i, t)
      waited i (some (raise x, t)) = some (raise x, t)

  unfoldable pub create_twin :
      (Text → Result Text) → Option Text → Text → Bool → ℕ → ℕ → Option (Result Text × ℕ)
  unfolding created
  create_twin post i uuid wait timeout now =
      created (post (text_or i uuid)) (text_or i uuid) wait timeout now
