-- ===== src/Service/Twin.antt =====
-- One twin of a session: `TwinInstance`, `DTSession._init_twin` and `_live_twin`,
-- src/digitaltwin/service/session.py. Its runtime is kept as the life cycle of `Runtime.Lifecycle`.
use digital_twin_framework.Prelude.{
  ℕ, Text, codes, Bool, true, false, List, [], ◌∷◌, Option, none, some, or_else, Dict, lookup,
  nat_eq, list_eq, ◌≡◌, refl, arith, is_some, ◌⊎◌, ap, ◌++◌,
}
use digital_twin_framework.Runtime.Lifecycle.{State, ready, Life, new_life, stop}
use digital_twin_framework.Runtime.Lifecycle.Terminal.{last_error-stop}

pub data OwnState : Type 0 where
  initializing init_failed closed : OwnState

-- The state that is reported: the twin's own, or that of its runtime.
pub data TwinState : Type 0 where
  own : OwnState → TwinState
  of_runtime : State → TwinState

pub record Twin (J : Type 0) : Type 0 where
  pub runtime : Option (Life J)
  pub has_stream : Bool
  pub own_state : OwnState
  pub own_error : Option Text
  pub init_task : Option ℕ
  pub inflight : List ℕ

-- How the background phase of `twin_create` ended: the engine, the addresses and the stream came
-- up, or it was cancelled, or it ran into its time limit, or something raised.
pub data InitOutcome : Type 0 where
  unattached connected init_cancelled init_timed_out : InitOutcome
  init_raised : Text → InitOutcome

task_list : Option ℕ → List ℕ
task_list none = []
task_list (some n) = n ∷ []

module _ {J : Type 0} where
  unfoldable pub new_twin : Twin J
  new_twin = record {
    runtime = none;
    has_stream = false;
    own_state = initializing;
    own_error = none;
    init_task = none;
    inflight = [];
  }

  -- `TwinInstance.state`
  unfoldable pub state : Twin J → TwinState
  state t = elim t.runtime [ none ↦ own t.own_state | some l ↦ of_runtime l.state ]

  -- `TwinInstance.last_error`
  unfoldable pub last_error : Twin J → Option Text
  last_error t = elim t.runtime [ none ↦ t.own_error | some l ↦ or_else l.last_error t.own_error ]

  unfoldable pub set_ready : Life J → Twin J → Twin J
  set_ready l t = record t { runtime = some l; has_stream = true }

  unfoldable pub fail : Text → Twin J → Twin J
  fail error t = record t { own_state = init_failed; own_error = some error }

  unfoldable pub track : ℕ → Twin J → Twin J
  track task t = record t { inflight = task ∷ t.inflight }

  -- `TwinInstance.close`, with the tasks that it cancels, which take themselves out of `inflight`: a
  -- runtime is stopped, what it recorded last is kept, and everything else is dropped.
  unfoldable pub close : Twin J → List ℕ × Twin J
  unfolding last_error task_list
  close t = (
    task_list t.init_task ++ t.inflight,
    record t {
      runtime = none;
      has_stream = false;
      own_state = closed;
      own_error = elim t.runtime [
        | none ↦ t.own_error
        | some l ↦ or_else (stop l).last_error t.own_error
      ];
      inflight = [];
    },
  )

  -- `_init_twin`: whether it goes on to raise, and the twin.
  unfoldable pub init_twin : InitOutcome → Twin J → Bool × Twin J
  unfolding set_ready fail
  init_twin unattached t =
      (false, fail (codes "RuntimeError: session is not attached to a dt plugin") t)
  init_twin connected t = (false, set_ready new_life t)
  init_twin init_cancelled t = (true, fail (codes "twin initialization was cancelled") t)
  init_twin init_timed_out t = (false, fail (codes "twin initialization exceeded 300.0s") t)
  init_twin (init_raised error) t = (false, fail error t)

  -- `_live_twin`: the runtime of a twin that can take a verb, or the HTTP status of the refusal.
  unfoldable pub live : Option (Twin J) → ℕ × Option (Life J)
  live none = (404, none)
  live (some t) = elim t.runtime [ none ↦ (409, none) | some l ↦ (200, some l) ]

  unfoldable pub live_twin : Text → Dict Text (Twin J) → ℕ × Option (Life J)
  unfolding live
  live_twin i twins = live (lookup i twins)

  -- However the initialization of a twin without a runtime ends, the twin no longer reports
  -- `initializing`: it is ready with a stream, or failed with an error.
  pub init_twin_settles :
      (out : InitOutcome) (t : Twin J)
      → t.runtime ≡ none
      → ((state (init_twin out t).1 ≡ of_runtime ready) × ((init_twin out t).1.has_stream ≡ true))
        ⊎ ((state (init_twin out t).1 ≡ own init_failed)
            × (is_some (last_error (init_twin out t).1) ≡ true))
  unfolding init_twin state last_error fail set_ready new_life
  init_twin_settles unattached t h = ground arith
  init_twin_settles connected t h = ground arith
  init_twin_settles init_cancelled t h = ground arith
  init_twin_settles init_timed_out t h = ground arith
  init_twin_settles (init_raised error) t h = ground arith

  -- A closed twin reports `closed`, nothing of it is left, it still reports the last error from
  -- before, and closing it again changes nothing.
  pub close_keeps_error :
      (t : Twin J)
      → (state (close t).1 ≡ own closed)
        × ((close t).1.inflight ≡ [])
        × (last_error (close t).1 ≡ last_error t)
        × ((close (close t).1).1 ≡ (close t).1)
  unfolding close state last_error
  close_keeps_error t = (refl, refl, kept t.runtime t.own_error, refl)
    where
      kept :
          (r : Option (Life J)) (o : Option Text)
          → (elim r [ none ↦ o | some l ↦ or_else (stop l).last_error o ])
            ≡ (elim r [ none ↦ o | some l ↦ or_else l.last_error o ])
      kept none o = refl
      kept (some l) o = ap (λ m. or_else m o) (last_error-stop l)
