-- ===== src/Runtime/Flow.antt =====
-- How the data of one data type flow from its queue through its chain of barriers to the components:
-- `_launch_consumer`, `_barrier_consumer` and `_launch_b_consumer` of src/digitaltwin/runtime.py, over
-- the barriers of `Barrier`. Each consumer is a loop of two waits; the chain does not change meanwhile.
-- `_dtype_consumer` is the delivery; what the components do with an item, or raise, is not part of it.
pub mod Cells
pub mod Lossless
pub mod Growing
use digital_twin_framework.Prelude.{
  ℕ, zero, suc, Bool, true, List, [], ◌∷◌, ◌++◌, Option, none, some, Status, done, raised, waiting,
  Error,
}
use digital_twin_framework.Dtype.{Dtype, TypedData}
use digital_twin_framework.Barrier
use digital_twin_framework.Barrier.{Barrier, put, get, run_step}

-- A consumer between its waits: about to get, about to put what it got, or ended by an exception.
pub data Hand (V : Type 0) : Type 0 where
  free : Hand V
  holding : TypedData V → Hand V
  crashed : Error → Hand V

-- A barrier of the chain, with the consumer that puts into it.
abbrev pub Cell : Type 0 → Type 0
Cell V = Hand V × Barrier V

-- `delivered` is what `_dtype_consumer` was called with, in order; `ended` is the exception that ended
-- `_launch_b_consumer`, if one did.
pub record Line (V : Type 0) : Type 0 where
  pub queue : List (TypedData V)
  pub cells : List (Cell V)
  pub delivered : List (TypedData V)
  pub ended : Option Error

-- What else happens to a barrier: its `run`, and the consumers of other data types.
pub data Other (V : Type 0) : Type 0 where
  running : Other V
  putting : TypedData V → Other V
  getting : Dtype → Other V

-- What happens to a line, in any order: an item enters its queue, a consumer goes on, or something
-- else happens to a barrier.
pub data Event (V : Type 0) : Type 0 where
  arriving : TypedData V → Event V
  taking handing : Event V
  placing passing : ℕ → Event V
  other : ℕ → Other V → Event V

module _ {V : Type 0} where
  chain_of : List (Barrier V) → List (Cell V)
  chain_of [] = []
  chain_of (b ∷ bs) = (free, b) ∷ chain_of bs

  -- An empty queue before a chain of barriers.
  unfoldable pub new_line : List (Barrier V) → Line V
  unfolding chain_of
  new_line bs = record { queue = []; cells = chain_of bs; delivered = []; ended = none }

  -- A consumer after its put.
  placed : TypedData V → Status × Barrier V → Cell V
  placed t (done, b) = (free, b)
  placed t (waiting, b) = (holding t, b)
  placed t (raised e, b) = (crashed e, b)

  pub put_held : Cell V → Cell V
  unfolding placed
  put_held (free, b) = (free, b)
  put_held (holding t, b) = placed t (put t b)
  put_held (crashed e, b) = (crashed e, b)

  -- A consumer after its get.
  got : Status × Option (TypedData V) × Barrier V → Cell V
  got (done, none, b) = (free, b)
  got (done, some t, b) = (holding t, b)
  got (waiting, o, b) = (free, b)
  got (raised e, o, b) = (crashed e, b)

  -- `_launch_consumer` hands an item to the first barrier, or to the components when there is none.
  take_first : TypedData V → List (TypedData V) → List (Cell V) → Line V → Line V
  take_first t ts [] l = record l { queue = ts; delivered = l.delivered ++ (t ∷ []) }
  take_first t ts ((free, b) ∷ cells) l = record l { queue = ts; cells = (holding t, b) ∷ cells }
  take_first t ts (c ∷ cells) l = l

  take_from : List (TypedData V) → Line V → Line V
  unfolding take_first
  take_from [] l = l
  take_from (t ∷ ts) l = take_first t ts l.cells l

  module _ (d : Dtype) where
    -- `_barrier_consumer` gets from one barrier to put into the next.
    pass : Hand V → Barrier V → Hand V → Barrier V → List (Cell V) → List (Cell V)
    unfolding got
    pass h b free c rest = let (hand, b') = got (get d true b) in (h, b') ∷ (hand, c) ∷ rest
    pass h b k c rest = (h, b) ∷ (k, c) ∷ rest

    pub shift : ℕ → List (Cell V) → List (Cell V)
    unfolding pass
    shift zero ((h, b) ∷ (k, c) ∷ rest) = pass h b k c rest
    shift zero cells = cells
    shift (suc n) [] = []
    shift (suc n) (c ∷ cells) = c ∷ shift n cells

    -- What the last barrier gives.
    unfoldable pub give : List (Cell V) → Hand V × List (Cell V)
    unfolding got
    give [] = (free, [])
    give ((h, b) ∷ []) = let (hand, b') = got (get d true b) in (hand, (h, b') ∷ [])
    give (c ∷ c' ∷ cells) = let (hand, rest) = give (c' ∷ cells) in (hand, c ∷ rest)

  -- `_launch_b_consumer` hands an item to the components.
  hand_on : Hand V × List (Cell V) → Line V → Line V
  hand_on (free, cells) l = record l { cells = cells }
  hand_on (holding t, cells) l = record l { cells = cells; delivered = l.delivered ++ (t ∷ []) }
  hand_on (crashed e, cells) l = record l { cells = cells; ended = some e }

  -- A change of one cell of the chain.
  pub update_cell : ℕ → (Cell V → Cell V) → List (Cell V) → List (Cell V)
  update_cell n f [] = []
  update_cell zero f (c ∷ cells) = f c ∷ cells
  update_cell (suc n) f (c ∷ cells) = c ∷ update_cell n f cells

module _ {V : Type 0} (sequence : List V → V) (d : Dtype) where
  on_barrier : Other V → Barrier V → Barrier V
  on_barrier running b = (run_step sequence b).1
  on_barrier (putting t) b = (put t b).1
  on_barrier (getting e) b = (get e true b).2

  pub on_cell : Other V → Cell V → Cell V
  unfolding on_barrier
  on_cell x (h, b) = (h, on_barrier x b)

  hand_over : Option Error → Line V → Line V
  unfolding hand_on give
  hand_over none l = hand_on (give d l.cells) l
  hand_over (some e) l = l

  unfoldable pub step : Event V → Line V → Line V
  unfolding take_from shift hand_over update_cell put_held on_cell
  step (arriving t) l = record l { queue = l.queue ++ (t ∷ []) }
  step taking l = take_from l.queue l
  step handing l = hand_over l.ended l
  step (placing n) l = record l { cells = update_cell n put_held l.cells }
  step (passing n) l = record l { cells = shift d n l.cells }
  step (other n x) l = record l { cells = update_cell n (on_cell x) l.cells }

  unfoldable pub steps : List (Event V) → Line V → Line V
  unfolding step
  steps [] l = l
  steps (x ∷ xs) l = steps xs (step x l)
