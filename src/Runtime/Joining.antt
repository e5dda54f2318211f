-- ===== src/Runtime/Joining.antt =====
-- The component that joins several data types: `_JoinComponent` of src/digitaltwin/runtime.py. Its
-- queues hold one item each; a round of its main loop takes one item from each, as they come, and then
-- submits them together. A call that cannot go on returns `waiting` and is made again.
pub mod Rounds
pub mod Pairing
use digital_twin_framework.Prelude.{
  Bool, true, false, List, [], ◌∷◌, ◌++◌, Option, none, some, Status, done, raised, waiting,
  value_error, Dict, lookup, insert, if◌then◌else◌,
}
use digital_twin_framework.Dtype.{Dtype, Dtypes, nil, cons, TypedData}
use digital_twin_framework.Dtype.Equality.{dtype_has_eq}

-- A queue for one item, and what the main loop's pending `get` has taken from it.
pub record Input (V : Type 0) : Type 0 where
  pub queued : Option (TypedData V)
  pub taken : Option (TypedData V)

-- `submitted` holds the lists of results that were submitted, in order.
pub record Join (V : Type 0) : Type 0 where
  pub inputs : Dict Dtype (Input V)
  pub submitted : List (List (TypedData V))

-- What happens to the component: a call of `update`, a `get` that completes, and the end of a round.
pub data Event (V : Type 0) : Type 0 where
  updating : TypedData V → Event V
  getting : Dtype → Event V
  gathering : Event V

module _ {V : Type 0} where
  abbrev pub empty_input : Input V
  empty_input = record { queued = none; taken = none }

  -- One queue for each data type; a repeated one is assigned again.
  pub queues : Dtypes → Dict Dtype (Input V) → Dict Dtype (Input V)
  queues nil m = m
  queues (cons d ds) m = queues ds (insert d empty_input m)

  unfoldable pub new_join : Dtypes → Join V
  unfolding queues
  new_join ds = record { inputs = queues ds []; submitted = [] }

  -- `await queue.put(item)`
  put_queued : TypedData V → Option (TypedData V) → Input V → Join V → Status × Join V
  put_queued t none i j =
      (done, record j { inputs = insert t.dtype (record i { queued = some t }) j.inputs })
  put_queued t (some u) i j = (waiting, j)

  put_input : TypedData V → Option (Input V) → Join V → Status × Join V
  unfolding put_queued
  put_input t none j = (raised value_error, j)
  put_input t (some i) j = put_queued t i.queued i j

  unfoldable pub update : TypedData V → Join V → Status × Join V
  unfolding put_input
  update t j = put_input t (lookup t.dtype j.inputs) j

  take_queued : Dtype → Option (TypedData V) → Input V → Join V → Join V
  take_queued d none i j = record j {
    inputs = insert d (record { queued = none; taken = i.queued }) j.inputs;
  }
  take_queued d (some t) i j = j

  take_input : Dtype → Option (Input V) → Join V → Join V
  unfolding take_queued
  take_input d none j = j
  take_input d (some i) j = take_queued d i.taken i j

  unfoldable pub take : Dtype → Join V → Join V
  unfolding take_input
  take d j = take_input d (lookup d j.inputs) j

  -- `asyncio.gather`: the results in the order of the queues, when all are there, and the queues for
  -- the next round.
  with_result :
      Dtype
      → Input V
      → Option (TypedData V)
      → Option (List (TypedData V) × Dict Dtype (Input V))
      → Option (List (TypedData V) × Dict Dtype (Input V))
  with_result d i none rest = none
  with_result d i (some t) none = none
  with_result d i (some t) (some (ts, m)) = some (t ∷ ts, (d, record i { taken = none }) ∷ m)

  unfoldable pub gather : Dict Dtype (Input V) → Option (List (TypedData V) × Dict Dtype (Input V))
  unfolding with_result
  gather [] = some ([], [])
  gather ((d, i) ∷ m) = with_result d i i.taken (gather m)

  submit : Option (List (TypedData V) × Dict Dtype (Input V)) → Join V → Join V
  submit none j = j
  submit (some (ts, m)) j = record { inputs = m; submitted = j.submitted ++ (ts ∷ []) }

  unfoldable pub step : Event V → Join V → Join V
  unfolding update take submit gather
  step (updating t) j = (update t j).1
  step (getting d) j = take d j
  step gathering j = submit (gather j.inputs) j

  unfoldable pub steps : List (Event V) → Join V → Join V
  unfolding step
  steps [] j = j
  steps (x ∷ xs) j = steps xs (step x j)
