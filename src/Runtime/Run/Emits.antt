-- ===== src/Runtime/Run/Emits.antt =====
-- Conditions on the effects and the answer of a run, composed along its steps, `_run_component`,
-- src/digitaltwin/runtime.py.
use digital_twin_framework.Prelude.{
  ℕ, Bool, true, false, List, [], ◌∷◌, Option, none, some, Result, ok, raise, Error, ◌≡◌, refl, All,
  All-append, nat_eq,
}
use digital_twin_framework.Dtype.{TypedData}
use digital_twin_framework.Dtype.Equality.{dtype_has_eq}
use digital_twin_framework.Runtime.Act.{
  Act, Ending, waits, raises, returns, Effect, put, continue, ◌>>=◌, ◌>>◌, pure, throw, wait_for,
  ensure, perform, awaited,
}
use digital_twin_framework.Runtime.Run.{fires, answer_fires}

module _ {A : Type 0} where
  unfoldable pub Returns : (A → Type 0) → Ending A → Type 0
  Returns Q (returns a) = Q a
  Returns Q _ = Unit

module _ {V : Type 0} where
  -- A condition on what is put into the queues; other effects are free.
  unfoldable pub Sends : (TypedData V → Type 0) → Effect V → Type 0
  Sends R (put t) = R t
  Sends R _ = Unit

  -- All that is sent satisfies `R`, and what is returned satisfies `Q`.
  unfoldable pub Emits : {A : Type 0} → (TypedData V → Type 0) → (A → Type 0) → Act V A → Type 0
  Emits R Q m = All (Sends R) m.effects × Returns Q m.ending

  module _ (R : TypedData V → Type 0) where
    continue-Emits :
        {A B : Type 0} (Q : A → Type 0) (S : B → Type 0) (es : List (Effect V)) (e : Ending A)
        (f : A → Act V B)
        → All (Sends R) es
        → Returns Q e
        → ((a : A) → Q a → Emits R S (f a))
        → Emits R S (continue es e f)
    unfolding Emits Returns continue
    continue-Emits Q S es waits f h q k = (h, tt)
    continue-Emits Q S es (raises e) f h q k = (h, tt)
    continue-Emits Q S es (returns a) f h q k =
        (All-append (Sends R) es (f a).effects h (k a q).0, (k a q).1)

    pub >>=-Emits :
        {A B : Type 0} (Q : A → Type 0) (S : B → Type 0) (m : Act V A) (f : A → Act V B)
        → Emits R Q m
        → ((a : A) → Q a → Emits R S (f a))
        → Emits R S (m >>= f)
    unfolding Emits ◌>>=◌
    >>=-Emits Q S m f h k = continue-Emits Q S m.effects m.ending f h.0 h.1 k

    pub wait_for-Emits : (b : Bool) → Emits R (λ _. b ≡ true) (wait_for b)
    unfolding Emits Returns
    wait_for-Emits true = (tt, refl)
    wait_for-Emits false = (tt, tt)

    pub ensure-Emits : (b : Bool) (e : Error) → Emits R (λ _. b ≡ true) (ensure b e)
    unfolding Emits Returns
    ensure-Emits true e = (tt, refl)
    ensure-Emits false e = (tt, tt)

    pub perform-Emits : (es : List (Effect V)) → All (Sends R) es → Emits R (λ _. Unit) (perform es)
    unfolding Emits Returns
    perform-Emits es h = (h, tt)

    pub awaited-Emits : {A : Type 0} (r : Result A) → Emits R (λ _. Unit) (awaited r)
    unfolding Emits Returns
    awaited-Emits (ok a) = (tt, tt)
    awaited-Emits (raise e) = (tt, tt)

    pub fires-Sends : (cbs : List ℕ) (t : TypedData V) → All (Sends R) (fires cbs t)
    unfolding Sends fires
    fires-Sends [] t = tt
    fires-Sends (c ∷ cbs) t = (tt, fires-Sends cbs t)

    pub answer_fires-Sends :
        (cbs : List ℕ) (t : Option (TypedData V)) → All (Sends R) (answer_fires cbs t)
    unfolding answer_fires Sends
    answer_fires-Sends [] none = tt
    answer_fires-Sends (cb ∷ cbs) none = (tt, answer_fires-Sends cbs none)
    answer_fires-Sends cbs (some t) = fires-Sends cbs t

    -- An optional answer that satisfies a condition.
    unfoldable pub Optionally : Option (TypedData V) → Type 0
    Optionally none = Unit
    Optionally (some t) = R t

    -- A step, and then the rest.
    pub perform->>-Emits :
        {B : Type 0} (S : B → Type 0) (es : List (Effect V)) (n : Act V B)
        → All (Sends R) es
        → Emits R S n
        → Emits R S (perform es >> n)
    perform->>-Emits S es n h k =
        >>=-Emits (λ _. Unit {0}) S (perform es) (λ _. n) (perform-Emits es h) (λ u t. k)

    pub ensure->>-Emits :
        {B : Type 0} (S : B → Type 0) (b : Bool) (e : Error) (n : Act V B)
        → (b ≡ true → Emits R S n)
        → Emits R S (ensure b e >> n)
    ensure->>-Emits S b e n k =
        >>=-Emits (λ _. b ≡ true) S (ensure b e) (λ _. n) (ensure-Emits b e) (λ u h. k h)

    pub wait_for->>-Emits :
        {B : Type 0} (S : B → Type 0) (b : Bool) (n : Act V B)
        → Emits R S n
        → Emits R S (wait_for b >> n)
    wait_for->>-Emits S b n k =
        >>=-Emits (λ _. b ≡ true) S (wait_for b) (λ _. n) (wait_for-Emits b) (λ u h. k)

    pub awaited->>=-Emits :
        {A B : Type 0} (S : B → Type 0) (r : Result A) (f : A → Act V B)
        → ((a : A) → Emits R S (f a))
        → Emits R S (awaited r >>= f)
    awaited->>=-Emits S r f k =
        >>=-Emits (λ _. Unit {0}) S (awaited r) f (awaited-Emits r) (λ a h. k a)

    pub pure-Emits : {B : Type 0} (S : B → Type 0) (b : B) → S b → Emits R S (pure b)
    unfolding Emits Returns
    pure-Emits S b h = (tt, h)

    pub throw-Emits : {B : Type 0} (S : B → Type 0) (e : Error) → Emits R S (throw e)
    unfolding Emits Returns
    throw-Emits S e = (tt, tt)
