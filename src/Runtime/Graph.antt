-- ===== src/Runtime/Graph.antt =====
-- The graph of a runtime: `add_input`, `add_task`, `add_investigator`, `add_agent`, `add_barrier`,
-- `add_data_join`, `add_data_split_task` and the queues, src/digitaltwin/runtime.py.
pub mod Routes
use digital_twin_framework.Prelude.{
  ℕ, zero, suc, Text, codes, Bool, true, false, not, ◌||◌, ◌&&◌, List, [], ◌∷◌, ◌++◌, Option, none,
  some, Result, ok, raise, runtime_error, value_error, Error, if◌then◌else◌, is_some, Eq, ◌==◌,
  nat_eq, list_eq, pair_eq, contains, any, Dict, lookup, insert, has, get_or_else, ◌>>=◌, ◌>>◌,
  assert, raise_if,
}
use digital_twin_framework.Dtype.{Dtype, Dtypes, plain, join, nil, cons, TypedData}
use digital_twin_framework.Dtype.Equality.{dtype_has_eq}
use digital_twin_framework.Stream.Topic.{check_channel}
use digital_twin_framework.Stream.Codec.{check_codec}
use digital_twin_framework.Runtime.Lifecycle.{Life, new_life, is_terminal, spawn}

abbrev pub truthy : Dtype
truthy = plain (codes "TRUE")

abbrev pub null_dtype : Dtype
null_dtype = plain (codes "NULL")

-- The classes of components that the runtime tells apart.
pub data Kind : Type 0 where
  utility split investigator agent joining : Kind

-- A component object, by its class and its identity.
pub record Component : Type 0 where
  pub kind : Kind
  pub ident : ℕ

-- `_AnnotatedComponent`, as far as the graph reads it.
pub record Annotated : Type 0 where
  pub component : Component
  pub input_dtype : Dtype
  pub output_dtype : Dtype
  pub is_persistent : Bool
  pub split_outputs : List Dtype

-- `_InputBinding`, as nested pairs: the data type, the channel and the codec.
abbrev pub Binding : Type 0
Binding = Dtype × (Text × Text)

-- The coroutines that the runtime runs as tasks.
pub data Job : Type 0 where
  launch_consumer : Dtype → Job
  subscribe_to_channel : Text → Dtype → Text → Job
  run_component : Annotated → Job
  main_loop : Component → Job
  barrier_consumer : Dtype → ℕ → ℕ → Job
  barrier_run : ℕ → Job

-- A barrier is named by a number; its own state is in `Barrier`.
pub record Graph (V : Type 0) : Type 0 where
  pub life : Life Job
  pub dtype_queues : Dict Dtype (List (TypedData V))
  pub components : Dict Dtype (List Annotated)
  pub barriers : Dict Dtype (List ℕ)
  pub inputs : List Binding
  pub join_components : List (Dtype × Component)

abbrev pub is_model : Kind → Bool
is_model investigator = true
is_model agent = true
is_model _ = false

abbrev pub is_utility : Kind → Bool
is_utility utility = true
is_utility split = true
is_utility _ = false

-- The items of a dict of lists under a key.
abbrev pub items {ℓ} : {A : Type ℓ} → Dtype → Dict Dtype (List A) → List A
items d m = get_or_else (lookup d m) []

abbrev pub append_item {ℓ} : {A : Type ℓ} → Dtype → A → Dict Dtype (List A) → Dict Dtype (List A)
append_item d a m = insert d (items d m ++ (a ∷ [])) m

-- A call that may raise, and then has changed nothing.
abbrev pub guarded :
    {V : Type 0} → Result (Unit {0}) → Graph V → Graph V → Result (Unit {0}) × Graph V
guarded (ok u) g g' = (ok tt, g')
guarded (raise e) g g' = (raise e, g)

-- A component of a class.
unfoldable pub component_of : Kind → ℕ → Component
component_of k n = record { kind = k; ident = n }

unfoldable pub annotate : Component → Dtype → Dtype → Bool → Annotated
annotate c i o persistent = record {
  component = c;
  input_dtype = i;
  output_dtype = o;
  is_persistent = persistent;
  split_outputs = [];
}

-- An investigator or an agent already has the mapping.
abbrev pub takes_route : Dtype → Annotated → Bool
takes_route o a = (a.output_dtype == o) && is_model a.component.kind

last_of : List ℕ → Option ℕ
last_of [] = none
last_of (x ∷ []) = some x
last_of (x ∷ y ∷ l) = last_of (y ∷ l)

module _ {V : Type 0} where
  unfoldable pub new_graph : Graph V
  unfolding new_life
  new_graph = record {
    life = new_life;
    dtype_queues = [];
    components = [];
    barriers = [];
    inputs = [];
    join_components = [];
  }

  unfoldable pub to_task : Job → Graph V → Graph V
  to_task j g = record g { life = spawn j g.life }

  unfoldable pub check_mutable : Graph V → Result (Unit {0})
  check_mutable g = raise_if (is_terminal g.life.state) runtime_error

  unfoldable pub ensure_dtype_queue : Dtype → Graph V → Graph V
  unfolding to_task
  ensure_dtype_queue d g =
      if has d g.dtype_queues
      then g
      else to_task (launch_consumer d) (record g { dtype_queues = insert d [] g.dtype_queues })

  unfoldable pub add_component : Annotated → Graph V → Graph V
  add_component a g = record g { components = append_item a.input_dtype a g.components }

  -- The queue comes first: it is an argument of the task that subscribes.
  bind_input : Binding → Graph V → Graph V
  unfolding to_task ensure_dtype_queue
  bind_input (d, (channel, codec)) g =
      if contains g.inputs (d, (channel, codec))
      then g
      else to_task (subscribe_to_channel channel d codec)
          (ensure_dtype_queue d (record g { inputs = g.inputs ++ ((d, (channel, codec)) ∷ []) }))

  unfoldable pub add_input : Dtype → Text → Text → Graph V → Result (Unit {0}) × Graph V
  unfolding bind_input check_mutable
  add_input d channel codec g =
      guarded (check_mutable g >> (check_channel channel >> check_codec codec)) g
        (bind_input (d, (channel, codec)) g)

  run_if_truthy : Annotated → Graph V → Graph V
  unfolding to_task
  run_if_truthy a g = if a.input_dtype == truthy then to_task (run_component a) g else g

  unfoldable pub add_task : Component → Dtype → Dtype → Bool → Graph V → Result (Unit {0}) × Graph V
  unfolding check_mutable annotate add_component run_if_truthy
  add_task c i o persistent g =
      let a = annotate c i o persistent in
      guarded (check_mutable g >> assert (is_utility c.kind)) g
        (run_if_truthy a (add_component a g))

  abbrev pub has_route : Dtype → Dtype → Graph V → Bool
  has_route i o g = any (takes_route o) (items i g.components)

  -- `add_investigator` and `add_agent`, which differ in the API object of the main loop, for a component
  -- of a class that `_api` knows and whose main loop takes the arguments given. Of another one both
  -- raise after the component was added.
  unfoldable pub add_model : Kind → ℕ → Dtype → Dtype → Graph V → Result (Unit {0}) × Graph V
  unfolding check_mutable annotate add_component to_task component_of
  add_model k n i o g =
      let c = component_of k n in
      guarded
        (check_mutable g >> (assert (not (i == truthy)) >> raise_if (has_route i o g) value_error))
        g (to_task (main_loop c) (add_component (annotate c i o false) g))

  unfoldable pub add_investigator : ℕ → Dtype → Dtype → Graph V → Result (Unit {0}) × Graph V
  unfolding add_model
  add_investigator n i o g = add_model investigator n i o g

  unfoldable pub add_agent : ℕ → Dtype → Dtype → Graph V → Result (Unit {0}) × Graph V
  unfolding add_model
  add_agent n i o g = add_model agent n i o g

  -- The barrier that the chain of a data type ends in, and the new one behind it.
  hop : Dtype → Option ℕ → ℕ → Graph V → Graph V
  unfolding to_task
  hop d none b g = g
  hop d (some previous) b g = to_task (barrier_consumer d previous b) g

  chain_barrier : ℕ → List Dtype → Graph V → Graph V
  unfolding hop last_of
  chain_barrier b [] g = g
  chain_barrier b (d ∷ ds) g =
      chain_barrier b ds (
        hop d (last_of (items d g.barriers)) b (record g { barriers = append_item d b g.barriers }))

  unfoldable pub add_barrier : ℕ → List Dtype → Graph V → Result (Unit {0}) × Graph V
  unfolding check_mutable chain_barrier to_task
  add_barrier b ds g = guarded (check_mutable g) g (to_task (barrier_run b) (chain_barrier b ds g))

  -- The loop of `add_data_join` over the parts of the joined type.
  add_parts : Component → Dtype → Dtypes → Graph V → Graph V
  unfolding add_component annotate
  add_parts c j nil g = g
  add_parts c j (cons d ds) g = add_parts c j ds (add_component (annotate c d j false) g)

  unfoldable pub add_data_join : ℕ → Dtypes → Graph V → Result (Unit {0}) × Graph V
  unfolding add_parts to_task component_of
  add_data_join n ds g =
      let c = component_of joining n in
      guarded (raise_if (has (join ds) g.join_components) value_error) g (
        to_task (main_loop c) (
          add_parts c (join ds) ds
            (record g { join_components = insert (join ds) c g.join_components })))

  unfoldable pub add_data_split_task :
      ℕ → Dtype → List Dtype → Graph V → Result (Unit {0}) × Graph V
  unfolding add_component annotate component_of
  add_data_split_task n i outs g =
      let c = component_of split n in
      guarded (assert (not (i == truthy))) g
        (add_component (record (annotate c i null_dtype false) { split_outputs = outs }) g)

  enqueue : TypedData V → Graph V → Graph V
  enqueue t g = record g { dtype_queues = append_item t.dtype t g.dtype_queues }

  unfoldable pub put_to_dtype_queue : TypedData V → Graph V → Graph V
  unfolding enqueue ensure_dtype_queue
  put_to_dtype_queue t g =
      if t.dtype == null_dtype
      then g
      else if not (has t.dtype g.dtype_queues) && not (has t.dtype g.components)
      then g
      else enqueue t (ensure_dtype_queue t.dtype g)
