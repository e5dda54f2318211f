-- ===== src/Runtime/Describe.antt =====
-- The summary of a twin, `describe` of src/digitaltwin/runtime.py. The name of a component's class, a
-- barrier's name and its hardness for a data type, and the investigators that an agent has started
-- through its `RuntimeAPI`, which start none themselves, are parameters.
pub mod Listing
pub mod Printing
use digital_twin_framework.Prelude.{
  ℕ, Text, Bool, true, false, ◌&&◌, List, [], ◌∷◌, ◌++◌, Dict, insert, nat_eq, list_eq, ◌==◌, ltb,
  map, Option, if◌then◌else◌,
}
use digital_twin_framework.Dtype.{Dtype, name}
use digital_twin_framework.Dtype.Equality.{dtype_has_eq}
use digital_twin_framework.Runtime.Lifecycle.{State}
use digital_twin_framework.Runtime.Graph.{
  Kind, utility, split, investigator, agent, joining, Component, Annotated, Binding, Graph,
}

-- An investigator of an agent.
pub record Investigated : Type 0 where
  pub component : Text
  pub input_dtype : Text
  pub output_dtype : Text
  pub is_persistent : Bool
  pub is_join : Bool
  pub is_split : Bool
  pub split_outputs : List Text

pub record Entry : Type 0 where
  pub component : Text
  pub input_dtype : Text
  pub output_dtype : Text
  pub is_persistent : Bool
  pub investigators : List Investigated
  pub is_join : Bool
  pub is_split : Bool
  pub split_outputs : List Text

pub record Description : Type 0 where
  pub namespace : Text
  pub state : State
  pub last_error : Option Text
  pub inputs : List (Text × Text × Text)
  pub components : List Entry
  pub dtypes : List Text
  pub barriers : Dict Text (List (Text × Bool))

abbrev pub is_joining : Kind → Bool
is_joining joining = true
is_joining _ = false

abbrev pub is_splitting : Kind → Bool
is_splitting split = true
is_splitting _ = false

names : List Dtype → List Text
unfolding name
names [] = []
names (d ∷ ds) = name d ∷ names ds

-- Python's order of texts.
unfoldable pub text_lt : Text → Text → Bool
text_lt s [] = false
text_lt [] (d ∷ t) = true
text_lt (c ∷ s) (d ∷ t) = if ltb c d then true else (c == d && text_lt s t)

-- `sorted(set)`, one element at a time.
unfoldable pub insert_sorted : Text → List Text → List Text
unfolding text_lt
insert_sorted s [] = s ∷ []
insert_sorted s (t ∷ ts) =
    let rest = insert_sorted s ts in
    if s == t then t ∷ ts else if text_lt s t then s ∷ t ∷ ts else t ∷ rest

unfoldable pub sorted_set : List Text → List Text
unfolding insert_sorted
sorted_set [] = []
sorted_set (s ∷ ss) = insert_sorted s (sorted_set ss)

module _ (class_name : Component → Text) (started : Annotated → List Annotated) where
  investigated : Annotated → Investigated
  unfolding names name
  investigated a = record {
    component = class_name a.component;
    input_dtype = name a.input_dtype;
    output_dtype = name a.output_dtype;
    is_persistent = a.is_persistent;
    is_join = is_joining a.component.kind;
    is_split = is_splitting a.component.kind;
    split_outputs = names a.split_outputs;
  }

  unfoldable pub described : Annotated → Entry
  unfolding names name investigated
  described a = record {
    component = class_name a.component;
    input_dtype = name a.input_dtype;
    output_dtype = name a.output_dtype;
    is_persistent = a.is_persistent;
    investigators = map investigated (started a);
    is_join = is_joining a.component.kind;
    is_split = is_splitting a.component.kind;
    split_outputs = names a.split_outputs;
  }

  unfoldable pub described_all : Dict Dtype (List Annotated) → List Entry
  unfolding described
  described_all [] = []
  described_all ((d, ants) ∷ m) = map described ants ++ described_all m

unfoldable pub described_inputs : List Binding → List (Text × Text × Text)
unfolding name
described_inputs [] = []
described_inputs ((d, (channel, codec)) ∷ bs) = (name d, channel, codec) ∷ described_inputs bs

-- The names that the entries and the inputs use.
unfoldable pub used : List Entry → List (Text × Text × Text) → List Text
used [] [] = []
used [] ((n, channel, codec) ∷ is) = n ∷ used [] is
used (e ∷ es) is = e.input_dtype ∷ e.output_dtype ∷ used es is

-- A comprehension over the dict: a name that comes again replaces the chain of the first.
unfoldable pub described_barriers :
    (ℕ → Text)
    → (ℕ → Dtype → Bool)
    → Dict Dtype (List ℕ)
    → Dict Text (List (Text × Bool))
    → Dict Text (List (Text × Bool))
unfolding name
described_barriers barrier_name hard [] out = out
described_barriers barrier_name hard ((d, chain) ∷ m) out =
    described_barriers barrier_name hard m
      (insert (name d) (map (λ b. (barrier_name b, hard b d)) chain) out)

unfoldable pub describe :
    {V : Type 0}
    → (Component → Text)
    → (Annotated → List Annotated)
    → (ℕ → Text)
    → (ℕ → Dtype → Bool)
    → Text
    → Graph V
    → Description
unfolding described_all described_inputs sorted_set used described_barriers
describe class_name started barrier_name hard namespace g =
    let entries = described_all class_name started g.components in
    let inputs = described_inputs g.inputs in
    record {
      namespace = namespace;
      state = g.life.state;
      last_error = g.life.last_error;
      inputs = inputs;
      components = entries;
      dtypes = sorted_set (used entries inputs);
      barriers = described_barriers barrier_name hard g.barriers [];
    }
