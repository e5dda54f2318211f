-- ===== src/Runtime/Act.antt =====
-- Coroutines of the runtime as a monad: the effects of a run in order, and whether it waits, raises
-- or returns. src/digitaltwin/runtime.py.
use digital_twin_framework.Prelude.{
  ℕ, Bool, true, false, List, [], ◌++◌, Result, ok, raise, Error, nat_eq,
}
use digital_twin_framework.Dtype.{Dtype, TypedData}
use digital_twin_framework.Dtype.Equality.{dtype_has_eq}

-- What a run does to the rest of the runtime, in order. Callbacks are named by numbers; `fire_none`
-- calls one with `None`.
pub data Effect (V : Type 0) : Type 0 where
  fire : ℕ → TypedData V → Effect V
  fire_none : ℕ → Effect V
  put : TypedData V → Effect V
  join_update : TypedData V → Effect V
  subscribe_output : Dtype → Effect V
  spawn_main_loop : TypedData V → Effect V

-- A coroutine's effects up to where it waits, raises or returns.
pub data Ending (A : Type 0) : Type 0 where
  waits : Ending A
  raises : Error → Ending A
  returns : A → Ending A

pub record Act (V A : Type 0) : Type 0 where
  pub effects : List (Effect V)
  pub ending : Ending A

module _ {V A B : Type 0} where
  unfoldable pub continue : List (Effect V) → Ending A → (A → Act V B) → Act V B
  continue es waits f = record { effects = es; ending = waits }
  continue es (raises e) f = record { effects = es; ending = raises e }
  continue es (returns a) f = record { effects = es ++ (f a).effects; ending = (f a).ending }

  infixl 5 ◌>>=◌
  unfoldable pub ◌>>=◌ : Act V A → (A → Act V B) → Act V B
  unfolding continue
  m >>= f = continue m.effects m.ending f

infixl 5 ◌>>◌
abbrev pub ◌>>◌ : {V B : Type 0} → Act V (Unit {0}) → Act V B → Act V B
m >> n = m >>= λ _. n

module _ {V : Type 0} where
  abbrev pub pure : {A : Type 0} → A → Act V A
  pure a = record { effects = []; ending = returns a }

  abbrev pub throw : {A : Type 0} → Error → Act V A
  throw e = record { effects = []; ending = raises e }

  -- `await event.wait()`
  abbrev pub wait_for : Bool → Act V (Unit {0})
  wait_for true = pure tt
  wait_for false = record { effects = []; ending = waits }

  abbrev pub ensure : Bool → Error → Act V (Unit {0})
  ensure true e = pure tt
  ensure false e = throw e

  abbrev pub perform : List (Effect V) → Act V (Unit {0})
  perform es = record { effects = es; ending = returns tt }

  -- An awaited call of user code.
  abbrev pub awaited : {A : Type 0} → Result A → Act V A
  awaited (ok a) = pure a
  awaited (raise e) = throw e
