-- ===== src/Tests/Runtimes.antt =====
-- A twin that starts and fails, a graph, and runs of components.
use digital_twin_framework.Prelude.{
  ℕ, codes, true, false, List, [], ◌∷◌, none, some, ok, nat_eq, lookup, inl, ◌≡◌, ◌≢◌, refl, arith,
}
use digital_twin_framework.Dtype.{Dtype, plain, TypedData}
use digital_twin_framework.Dtype.Equality.{dtype_has_eq}
use digital_twin_framework.Runtime.Lifecycle.{Life, new_life, start, record_error, is_terminal}
use digital_twin_framework.Runtime.Lifecycle.Terminal.{
  starting, reporting, Reach, here, next, IsSound, Keeps, new_life-IsSound, Reach-IsSound,
  terminal_is_final,
}
use digital_twin_framework.Runtime.Graph.{Kind, utility, split, component_of, annotate, new_graph}
use digital_twin_framework.Runtime.Graph.Routes.{
  Call, model_investigator, task, calls, HasUniqueRoutes, calls-HasUniqueRoutes,
}
use digital_twin_framework.Runtime.Run.{UserCode, single, Live, Investigator, run_component}
use digital_twin_framework.Runtime.Run.Queueing.{then_put, queued_run_is_inference}
use digital_twin_framework.Runtime.Run.Emits.{Emits, Optionally}
use digital_twin_framework.Runtime.Run.Answers.Typing.{outputs_are_typed}

abbrev going : Life ℕ
going = (start new_life).1

abbrev broken : Life ℕ
broken = record_error (codes "OSError: gone") going

going-Reach : Reach new_life broken
going-Reach = next (next here starting) (reporting (codes "OSError: gone"))

broken-IsSound : IsSound broken
broken-IsSound = Reach-IsSound new_life-IsSound going-Reach

broken-terminal : is_terminal broken.state ≡ true
unfolding new_life start record_error
broken-terminal = refl

terminal_is_final_example : Keeps broken (start broken).1
terminal_is_final_example = terminal_is_final broken-IsSound broken-terminal (next here starting)

abbrev load : Dtype
load = plain (codes "load")

abbrev cost : Dtype
cost = plain (codes "cost")

new_graph-HasUniqueRoutes : HasUniqueRoutes (new_graph {V = ℕ})
unfolding new_graph lookup
new_graph-HasUniqueRoutes i o = omega arith

abbrev built : List (Call ℕ)
built = model_investigator 1 load cost ∷ task (component_of utility 2) cost load false ∷ []

calls-HasUniqueRoutes_example : HasUniqueRoutes (calls built new_graph)
calls-HasUniqueRoutes_example = calls-HasUniqueRoutes built new_graph new_graph-HasUniqueRoutes

-- Code that answers with the data type of the costs, and once with another.
abbrev code : UserCode ℕ ℕ
code = record {
  main_loop = λ c t. ok (single (record { dtype = cost; content = 1 }));
  infer = λ i t kw. ok (some (record { dtype = load; content = kw }));
  select = λ i t. ok (0, none);
}

abbrev unpublished : Investigator ℕ
unpublished = record {
  subscriptions = λ e. [];
  model_kwargs = none;
  inference_task = none;
  has_published_model = false;
}

abbrev live_of : Kind → Live ℕ
live_of k = record {
  annotated = record (annotate (component_of k 1) load cost false) { split_outputs = cost ∷ [] };
  model = unpublished;
  investigators = [];
  model_select_task = none;
  has_published_selector = false;
}

abbrev datum : TypedData ℕ
datum = record { dtype = load; content = 3 }

outputs_are_typed_example :
    Emits
      (λ a. a.dtype ≡ cost)
      (Optionally (λ a. a.dtype ≡ cost))
      (run_component code true true (live_of utility) datum false)
unfolding annotate component_of
outputs_are_typed_example =
    outputs_are_typed code (live_of utility) true true false datum (inl refl)

utility-ne-split : utility ≢ split
utility-ne-split h = cc

utility-not-split : (live_of utility).annotated.component.kind ≢ split
unfolding annotate component_of
utility-not-split = utility-ne-split

queued_run_is_inference_example :
    run_component code true true (live_of utility) datum false
    ≡ then_put (run_component code true true (live_of utility) datum true)
queued_run_is_inference_example =
    queued_run_is_inference code true true (live_of utility) datum utility-not-split
