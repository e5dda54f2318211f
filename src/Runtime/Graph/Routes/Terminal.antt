-- ===== src/Runtime/Graph/Routes/Terminal.antt =====
-- A graph whose twin has stopped or failed. src/digitaltwin/runtime.py.
use digital_twin_framework.Prelude.{
  ℕ, Text, Bool, true, false, List, [], ◌∷◌, ◌++◌, ok, raise, runtime_error, ◌==◌, nat_eq, list_eq,
  pair_eq, ◌≡◌, arith, ==_refl,
}
use digital_twin_framework.Dtype.{Dtype}
use digital_twin_framework.Dtype.Equality.{dtype_has_eq}
use digital_twin_framework.Runtime.Lifecycle.{is_terminal}
use digital_twin_framework.Runtime.Graph.{
  truthy, null_dtype, split, Component, component_of, annotate, Graph, items, add_input, add_task,
  add_investigator, add_agent, add_barrier, add_data_split_task,
}
use digital_twin_framework.Runtime.Graph.Routes.{items-append_item}

module _ {V : Type 0} where
  -- On a twin that has stopped or failed, binding an input, adding a task, a model or a barrier
  -- raises and changes nothing.
  pub terminal_graph_fixed :
      (g : Graph V) (d o : Dtype) (channel codec : Text) (c : Component) (persistent : Bool) (n : ℕ)
      (ds : List Dtype)
      → is_terminal g.life.state ≡ true
      → (add_input d channel codec g ≡ (raise runtime_error, g))
        × (add_task c d o persistent g ≡ (raise runtime_error, g))
        × (add_investigator n d o g ≡ (raise runtime_error, g))
        × (add_agent n d o g ≡ (raise runtime_error, g))
        × (add_barrier n ds g ≡ (raise runtime_error, g))
  unfolding add_input add_task add_investigator add_agent add_barrier
  terminal_graph_fixed g d o channel codec c persistent n ds t = ground arith

  -- A split task whose input is not `TRUTHY` is added to a twin in any state, also a terminal one, and
  -- is listed under its input data type.
  pub split_ignores_state :
      (g : Graph V) (n : ℕ) (i : Dtype) (outs : List Dtype)
      → (i == truthy) ≡ false
      → ((add_data_split_task n i outs g).0 ≡ ok tt)
        × (items i (add_data_split_task n i outs g).1.components
            ≡ items i g.components
              ++ (record (annotate (component_of split n) i null_dtype false) {
                split_outputs = outs;
              }
                  ∷ []))
  unfolding add_data_split_task
  split_ignores_state g n i outs h = (
    ground arith,
    ground (
      arith,
      items-append_item i i
          (record (annotate (component_of split n) i null_dtype false) { split_outputs = outs })
          g.components,
      ==_refl i,
    ),
  )
