-- ===== src/Runtime/Shared.antt =====
-- Subtasks that the investigators of an agent share: `register_shared_subtask` and its wrapper in
-- `RuntimeAPI`, src/digitaltwin/runtime.py, over the cache of `Lru`. A wrapper holds its lock from
-- the test to the store, so a call up to its wait for the future is one step.
pub mod Once
pub mod Calls
pub mod Endings
use digital_twin_framework.Prelude.{
  ℕ, suc, ◌+◌, Bool, true, false, List, [], ◌∷◌, ◌++◌, Option, none, some, Result, ok, raise,
  assertion_error, value_error, Eq, ◌==◌, nat_eq, Dict, lookup, insert, ◌>>=◌, ◌>>◌, assert,
  if◌then◌else◌, contains, has, not, raise_if,
}
use digital_twin_framework.Lru.Freeze.{Value, Values, Frozen, freeze}
use digital_twin_framework.Lru.Freeze.Comparing.{frozen_has_eq}
use digital_twin_framework.Lru.{Cache, new_cache, put_item, fetch_item, exists}
use digital_twin_framework.Runtime.Graph.{Kind, agent, is_model}
use digital_twin_framework.Runtime.Api.{is_agent}

-- The cache of a label, with the futures that its wrapper has made: each is a number, with the key
-- whose arguments it computes on.
pub record Shared (K : Type 0) : Type 0 where
  pub cache : Cache K ℕ
  pub started : List (K × ℕ)
  pub next : ℕ

-- The labels of an agent. Its investigators share its entries: `known` has the labels that were put
-- into the dict of each investigator, by number.
pub record SharedTasks (K : Type 0) : Type 0 where
  pub structs : Dict ℕ (Shared K)
  pub known : ℕ → List ℕ

pub data Caller : Type 0 where
  agent_itself : Caller
  child : ℕ → Caller

module _ {K : Type 0} where
  unfoldable pub new_shared : ℕ → Shared K
  unfolding new_cache
  new_shared lru_size = record { cache = new_cache lru_size; started = []; next = 0 }

  unfoldable pub no_tasks : SharedTasks K
  no_tasks = record { structs = []; known = λ n. [] }

  -- `register_shared_subtask`, of an agent with these investigators: a label that is registered
  -- again gets a new cache.
  unfoldable pub register_shared_subtask :
      Kind → List ℕ → ℕ → ℕ → SharedTasks K → Result (SharedTasks K)
  unfolding new_shared
  register_shared_subtask k investigators label lru_size tasks = do
    assert (is_agent k)
    ok (record {
      structs = insert label (new_shared lru_size) tasks.structs;
      known = λ n. if contains investigators n then label ∷ tasks.known n else tasks.known n;
    })

  -- `label in self._ant.shared_tasks`
  unfoldable pub knows : Caller → ℕ → SharedTasks K → Bool
  knows agent_itself label tasks = has label tasks.structs
  knows (child n) label tasks = contains (tasks.known n) label

module _ {K : Type 0} ⦃e : Eq K⦄ where
  -- A key that is there gives its future.
  with_item : Shared K → Result (ℕ × Cache K ℕ) → Result (ℕ × Shared K)
  with_item s (ok (fut, c)) = ok (fut, record s { cache = c })
  with_item s (raise x) = raise x

  -- A key that is not begins a computation.
  with_new : K → Shared K → Result (Cache K ℕ) → Result (ℕ × Shared K)
  with_new key s (ok c) =
      ok (s.next, record { cache = c; started = (key, s.next) ∷ s.started; next = suc s.next })
  with_new key s (raise x) = raise x

  -- `fetch_wrapper` of a key, up to its wait for the future that it gives.
  unfoldable pub fetch_key : K → Shared K → Result (ℕ × Shared K)
  unfolding with_item with_new
  fetch_key key s =
      if exists key s.cache
      then with_item s (fetch_item key s.cache)
      else with_new key s (put_item key s.next s.cache)

  stored : ℕ → SharedTasks K → Result (ℕ × Shared K) → Result (ℕ × SharedTasks K)
  stored label tasks (ok (fut, s)) =
      ok (fut, record tasks { structs = insert label s tasks.structs })
  stored label tasks (raise x) = raise x

  called : ℕ → K → SharedTasks K → Option (Shared K) → Result (ℕ × SharedTasks K)
  unfolding stored
  called label key tasks none = raise value_error
  called label key tasks (some s) = stored label tasks (fetch_key key s)

  -- `call_shared_subtask`
  unfoldable pub call_shared_subtask : Caller → ℕ → K → SharedTasks K → Result (ℕ × SharedTasks K)
  unfolding called knows
  call_shared_subtask who label key tasks = do
    raise_if (not (knows who label tasks)) value_error
    called label key tasks (lookup label tasks.structs)

-- The key of a call: its positional arguments and the sorted items of its keyword arguments.
unfoldable pub key_of : Values × Values → Result Frozen
unfolding freeze
key_of (args, kwargs) =
    freeze
      (Value.tuple (Values.cons (Value.tuple args) (Values.cons (Value.tuple kwargs) Values.nil)))

-- `fetch_wrapper`: arguments that cannot be frozen raise before the lock is taken.
unfoldable pub fetch_wrapper : Values × Values → Shared Frozen → Result (ℕ × Shared Frozen)
unfolding key_of fetch_key
fetch_wrapper args s = do key ← key_of args; fetch_key key s
