-- ===== src/Tests/Flows.antt =====
-- A line with one barrier, a join of two data types, and a shared subtask.
use digital_twin_framework.Prelude.{
  ℕ, codes, true, List, [], ◌∷◌, ◌++◌, none, nat_eq, list_eq, list_beq, ==_iff, lookup, insert,
  keys, All, Distinct, false≢true, ◌≡◌, ◌≢◌, refl,
}
use digital_twin_framework.Dtype.{Dtype, plain, nil, cons, Dtypes, TypedData, dtype_eq}
use digital_twin_framework.Dtype.Equality.{dtype_has_eq}
use digital_twin_framework.Barrier.{Barrier, new_barrier, add_dtype}
use digital_twin_framework.Barrier.Carrying.{queue_of}
use digital_twin_framework.Lru.Freeze.{Value, Values, Frozen, Frozens, pair}
use digital_twin_framework.Lru.Freeze.Comparing.{frozen_has_eq}
use digital_twin_framework.Runtime.Flow.{
  Event, arriving, taking, handing, placing, other, running, getting, new_line, steps,
}
use digital_twin_framework.Runtime.Flow.Cells.{under_way, entered}
use digital_twin_framework.Runtime.Flow.Lossless.{IsEmpty, line_lossless}
use digital_twin_framework.Runtime.Joining
use digital_twin_framework.Runtime.Joining.{new_join, updating, gathering}
use digital_twin_framework.Runtime.Joining.Rounds.{dtypes_of, sent, held_in}
use digital_twin_framework.Runtime.Joining.Pairing.{accepted, join_pairs}

abbrev load : Dtype
load = plain (codes "load")

abbrev cost : Dtype
cost = plain (codes "cost")

abbrev first_of : List ℕ → ℕ
first_of [] = 0
first_of (x ∷ xs) = x

abbrev datum : Dtype → ℕ → TypedData ℕ
datum d n = record { dtype = d; content = n }

-- A barrier with the loads as a hard stream.
abbrev gate : Barrier ℕ
gate = (add_dtype load none (new_barrier (codes "b") true)).1

gate-IsEmpty : All (IsEmpty load) (gate ∷ [])
unfolding add_dtype new_barrier lookup insert queue_of list_beq dtype_eq
gate-IsEmpty = ((record { stream = _; found = refl; is_hard = refl; typed = tt }, refl), tt)

cost-ne-load : cost ≢ load
unfolding list_beq dtype_eq
cost-ne-load h = false≢true ((==_iff cost load).1 h)

abbrev traffic : List (Event ℕ)
traffic =
    arriving (datum load 1)
    ∷ arriving (datum load 2)
    ∷ taking
    ∷ placing 0
    ∷ other 0 running
    ∷ other 0 (getting cost)
    ∷ handing
    ∷ []

line_lossless_example :
    (entered traffic
      ≡ (steps first_of load traffic (new_line (gate ∷ []))).delivered
        ++ under_way load
            (steps first_of load traffic (new_line (gate ∷ []))).cells
            (steps first_of load traffic (new_line (gate ∷ []))).queue)
    × ((steps first_of load traffic (new_line (gate ∷ []))).ended ≡ none)
line_lossless_example =
    line_lossless load first_of (gate ∷ []) traffic gate-IsEmpty
      (refl, (refl, (tt, (tt, (tt, (cost-ne-load, (tt, tt)))))))

abbrev both : Dtypes
both = cons load (cons cost nil)

abbrev updates : List (Joining.Event ℕ)
updates =
    updating (datum load 1)
    ∷ Joining.getting load
    ∷ updating (datum load 2)
    ∷ updating (datum cost 3)
    ∷ Joining.getting cost
    ∷ gathering
    ∷ []

join_pairs_example :
    Distinct (keys (new_join {V = ℕ} both).inputs)
    × All
        (λ ts. dtypes_of ts ≡ keys (new_join {V = ℕ} both).inputs)
        (Joining.steps updates (new_join both)).submitted
    × (accepted load updates (new_join both)
        ≡ sent load (Joining.steps updates (new_join both)).submitted
          ++ held_in (lookup load (Joining.steps updates (new_join both)).inputs))
join_pairs_example = join_pairs both load updates

abbrev call_with : Value → Values × Values
call_with v = (Values.cons v Values.nil, Values.nil)

abbrev one : Value
one = Value.atom 1

-- A call with a list, one with another number, and one with a tuple that has the key of the list.
abbrev some_calls : List (Values × Values)
some_calls =
    call_with (Value.list (Values.cons one Values.nil))
    ∷ call_with (Value.atom 2)
    ∷ call_with (Value.tuple (Values.cons one Values.nil))
    ∷ []

abbrev key_with : Frozen → Frozen
key_with x = pair (Frozen.tuple (Frozens.cons x Frozens.nil)) (Frozen.tuple Frozens.nil)

abbrev key_one : Frozen
key_one = key_with (Frozen.tuple (Frozens.cons (Frozen.atom 1) Frozens.nil))

abbrev some_keys : List Frozen
some_keys = key_one ∷ key_with (Frozen.atom 2) ∷ key_one ∷ []
