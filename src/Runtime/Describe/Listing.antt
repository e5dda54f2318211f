-- ===== src/Runtime/Describe/Listing.antt =====
-- The data types that a description lists. src/digitaltwin/runtime.py.
use digital_twin_framework.Prelude.{
  ℕ, Text, Bool, true, false, ◌||◌, List, [], ◌∷◌, nat_eq, list_eq, list_beq, ◌==◌, ==_iff,
  contains, any, ◌≡◌, refl, arith,
}
use digital_twin_framework.Dtype.{Dtype}
use digital_twin_framework.Runtime.Graph.{Component, Annotated, Graph}
use digital_twin_framework.Runtime.Describe.{
  Entry, text_lt, insert_sorted, sorted_set, used, described_all, described_inputs, describe,
}

-- Each text before the next one, and none twice.
abbrev pub IsSorted : List Text → Type 0
IsSorted [] = Unit
IsSorted (s ∷ []) = Unit
IsSorted (s ∷ t ∷ ts) = (text_lt s t ≡ true) × IsSorted (t ∷ ts)

text_lt-flip : (s t : Text) → (s == t) ≡ false → text_lt s t ≡ false → text_lt t s ≡ true
unfolding text_lt list_beq
text_lt-flip [] [] n h = cc
text_lt-flip [] (d ∷ t) n h = cc
text_lt-flip (c ∷ s) [] n h = refl
text_lt-flip (c ∷ s) (d ∷ t) n h = ground (arith, text_lt-flip s t)

contains-insert_sorted :
    (s u : Text) (ts : List Text) → contains (insert_sorted s ts) u ≡ (s == u || contains ts u)
unfolding insert_sorted
contains-insert_sorted s u [] = refl
contains-insert_sorted s u (t ∷ ts) =
    ground (arith, contains-insert_sorted s u ts, ==_iff s t, ==_iff s u, ==_iff t u)

insert_sorted-IsSorted : (s : Text) (ts : List Text) → IsSorted ts → IsSorted (insert_sorted s ts)
unfolding insert_sorted
insert_sorted-IsSorted s [] h = tt
insert_sorted-IsSorted s (t ∷ []) h = ground (arith, text_lt-flip s t)
insert_sorted-IsSorted s (t ∷ u ∷ ts) h =
    let rest = insert_sorted-IsSorted s (u ∷ ts) h.1 in ground (arith, rest, h.0, text_lt-flip s t)

sorted_set-IsSorted : (ss : List Text) → IsSorted (sorted_set ss)
unfolding sorted_set
sorted_set-IsSorted [] = tt
sorted_set-IsSorted (s ∷ ss) = insert_sorted-IsSorted s (sorted_set ss) (sorted_set-IsSorted ss)

contains-sorted_set : (n : Text) (ss : List Text) → contains (sorted_set ss) n ≡ contains ss n
unfolding sorted_set
contains-sorted_set n [] = refl
contains-sorted_set n (s ∷ ss) =
    rw (contains-insert_sorted s n (sorted_set ss), contains-sorted_set n ss) refl

-- Whether an entry or an input has this name.
abbrev pub is_end_of : Text → Entry → Bool
is_end_of n e = e.input_dtype == n || e.output_dtype == n

abbrev pub is_input_of : Text → Text × Text × Text → Bool
is_input_of n (m, channel, codec) = m == n

contains-used :
    (n : Text) (es : List Entry) (is : List (Text × Text × Text))
    → contains (used es is) n ≡ (any (is_end_of n) es || any (is_input_of n) is)
unfolding used
contains-used n [] [] = refl
contains-used n [] ((m, channel, codec) ∷ is) = ground (arith, contains-used n [] is)
contains-used n (e ∷ es) is = ground (arith, contains-used n es is)

-- A description lists the names of its data types in order and each one once: a name is listed
-- exactly if a component of the description has it as its input or its output, or an input brings it.
pub described_dtypes :
    {V : Type 0} (class_name : Component → Text) (started : Annotated → List Annotated)
    (barrier_name : ℕ → Text) (hard : ℕ → Dtype → Bool) (namespace : Text) (g : Graph V) (n : Text)
    → IsSorted (describe class_name started barrier_name hard namespace g).dtypes
      × (contains (describe class_name started barrier_name hard namespace g).dtypes n ≡ (
          any (is_end_of n) (describe class_name started barrier_name hard namespace g).components
          || any
              (is_input_of n)
              (describe class_name started barrier_name hard namespace g).inputs))
unfolding describe
described_dtypes class_name started barrier_name hard namespace g n =
    let es = described_all class_name started g.components in
    let is = described_inputs g.inputs in
    (
      sorted_set-IsSorted (used es is),
      rw (contains-sorted_set n (used es is), contains-used n es is) refl,
    )
