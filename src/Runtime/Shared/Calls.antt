-- ===== src/Runtime/Shared/Calls.antt =====
-- Sequences of calls of a shared subtask, and who may call it. src/digitaltwin/runtime.py.
use digital_twin_framework.Prelude.{
  ℕ, true, false, List, [], ◌∷◌, some, Result, ok, raise, value_error, Eq, nat_eq, lookup, insert,
  keys, contains, Distinct, ◌≡◌, refl, arith, ◌>>=◌, if◌then◌else◌, ==_refl,
}
use digital_twin_framework.Lru.Freeze.{Values, Frozen}
use digital_twin_framework.Lru.Freeze.Comparing.{frozen_has_eq}
use digital_twin_framework.Runtime.Graph.{agent}
use digital_twin_framework.Runtime.Shared.{
  Shared, new_shared, key_of, fetch_wrapper, SharedTasks, child, register_shared_subtask,
  call_shared_subtask, knows,
}
use digital_twin_framework.Runtime.Shared.Once.{IsComplete}

module _ {K : Type 0} ⦃e : Eq K⦄ where
  -- An investigator that an agent started after it had registered a subtask, and that knows no label
  -- yet, may not call it: the call raises `ValueError`, whoever else may call it.
  pub late_investigator_refused :
      (label size n : ℕ) (key : K) (investigators : List ℕ) (tasks : SharedTasks K)
      → contains investigators n ≡ false
      → tasks.known n ≡ []
      → (tasks' : SharedTasks K) × (register_shared_subtask agent investigators label size tasks
          ≡ ok tasks')
        × (call_shared_subtask (child n) label key tasks' ≡ raise value_error)
        × ((m : ℕ) → contains investigators m ≡ true → knows (child m) label tasks' ≡ true)
  unfolding register_shared_subtask call_shared_subtask knows
  late_investigator_refused label size n key investigators tasks absent new = (
    record {
      structs = insert label (new_shared size) tasks.structs;
      known = λ m. if contains investigators m then label ∷ tasks.known m else tasks.known m;
    },
    refl,
    ground arith,
    λ m p. ground (arith, ==_refl label),
  )

-- Calls with arguments, with the future that each one gave.
unfoldable pub fetch_calls :
    List (Values × Values) → Shared Frozen → Result (List ℕ × Shared Frozen)
fetch_calls [] s = ok ([], s)
fetch_calls (args ∷ rest) s = do
  p ← fetch_wrapper args s
  q ← fetch_calls rest p.1
  ok (p.0 ∷ q.0, q.1)

-- The keys of arguments that can be frozen.
abbrev pub AreKeys : List (Values × Values) → List Frozen → Type 0
AreKeys [] [] = Unit
AreKeys (args ∷ rest) (k ∷ ks) = (key_of args ≡ ok k) × AreKeys rest ks
AreKeys _ _ = ⊥

-- The future of each key, in order.
abbrev pub IsComputed : Shared Frozen → List Frozen → List ℕ → Type 0
IsComputed s [] [] = Unit
IsComputed s (k ∷ ks) (fut ∷ futs) = (lookup k s.started ≡ some fut) × IsComputed s ks futs
IsComputed s _ _ = ⊥

-- The calls returned, each key was computed once, and each call has its key's future.
pub record ComputedOnce (calls : List (Values × Values)) (ks : List Frozen) (size : ℕ)
    : Type 0 where
  pub futures : List ℕ
  pub final : Shared Frozen
  pub returned : fetch_calls calls (new_shared size) ≡ ok (futures, final)
  pub once : Distinct (keys final.started)
  pub computed : IsComputed final ks futures

record CallsOutcome (universe ks : List Frozen) (calls : List (Values × Values)) (s : Shared Frozen)
    : Type 0 where
  futures : List ℕ
  final : Shared Frozen
  returned : fetch_calls calls s ≡ ok (futures, final)
  complete : IsComplete universe final
  computed : IsComputed final ks futures
  kept : (k : Frozen) (v : ℕ) → lookup k s.started ≡ some v → lookup k final.started ≡ some v
