-- ===== src/Runtime/Graph/Routes.antt =====
-- Sequences of the calls that build a graph, and the models that serve its routes.
-- src/digitaltwin/runtime.py.
pub mod Terminal
use digital_twin_framework.Prelude.{
  ℕ, zero, suc, ◌+◌, ◌≤◌, Text, codes, Bool, true, false, not, ◌||◌, ◌&&◌, List, [], ◌∷◌, ◌++◌,
  Option, none, some, Result, ok, raise, runtime_error, value_error, Error, if◌then◌else◌, is_some,
  Eq, ◌==◌, ==_iff, nat_eq, list_eq, pair_eq, contains, any, count, count-append, Dict, lookup,
  lookup-insert, insert, has, get_or_else, ◌>>=◌, ◌>>◌, assert, raise_if, ◌≡◌, ◌≢◌, refl, arith, ap,
  ◌∙◌, Bool-cases, inl, inr, ok-injective, ==_refl,
}
use digital_twin_framework.Dtype.{Dtype, Dtypes, plain, join, nil, cons, TypedData}
use digital_twin_framework.Dtype.Equality.{dtype_has_eq}
use digital_twin_framework.Stream.Topic.{check_channel}
use digital_twin_framework.Stream.Codec.{check_codec}
use digital_twin_framework.Runtime.Lifecycle.{Life, is_terminal, spawn}
use digital_twin_framework.Runtime.Graph.{
  truthy, null_dtype, Kind, utility, split, investigator, agent, joining, Component, component_of,
  Annotated, annotate, Job, Graph, is_model, is_utility, items, append_item, guarded, new_graph,
  to_task, check_mutable, ensure_dtype_queue, add_component, bind_input, add_input, run_if_truthy,
  add_task, takes_route, has_route, add_model, add_investigator, add_agent, hop, last_of,
  chain_barrier, add_barrier, add_parts, add_data_join, add_data_split_task, put_to_dtype_queue,
  enqueue, barrier_run, main_loop,
}

pub items-append_item {ℓ} :
    {A : Type ℓ} (i j : Dtype) (a : A) (m : Dict Dtype (List A))
    → items j (append_item i a m) ≡ (if i == j then items i m ++ (a ∷ []) else items j m)
items-append_item i j a m = ground (arith, lookup-insert i j (items i m ++ (a ∷ [])) m)

-- How many models serve a route.
abbrev pub models : {V : Type 0} → Dtype → Dtype → Graph V → ℕ
models i o g = count (takes_route o) (items i g.components)

any-count {ℓ} : {A : Type ℓ} (p : A → Bool) (l : List A) → any p l ≡ false → count p l ≡ 0
any-count p [] h = refl
any-count p (x ∷ l) h = ground (arith, any-count p l)

module _ {V : Type 0} where
  models-add_component :
      (i o : Dtype) (a : Annotated) (g : Graph V)
      → models i o (add_component a g)
        ≡ models i o g + (if (a.input_dtype == i) && takes_route o a then 1 else 0)
  unfolding add_component
  models-add_component i o a g = ground (
    arith,
    items-append_item a.input_dtype i a g.components,
    count-append (takes_route o) (items i g.components) (a ∷ []),
    ==_iff a.input_dtype i,
  )

  -- Calls that touch no component leave the routes.
  components-chain_barrier :
      (b : ℕ) (ds : List Dtype) (g : Graph V) → (chain_barrier b ds g).components ≡ g.components
  unfolding chain_barrier
  components-chain_barrier b [] g = refl
  components-chain_barrier b (d ∷ ds) g =
      components-chain_barrier b ds _ ∙ hopped (last_of (items d g.barriers))
    where
      hopped :
          (o : Option ℕ)
          → (hop d o b (record g { barriers = append_item d b g.barriers })).components
            ≡ g.components
      hopped none = refl
      hopped (some p) = refl

  models-add_parts :
      (i o : Dtype) (n : ℕ) (j : Dtype) (ds : Dtypes) (g : Graph V)
      → models i o (add_parts (component_of joining n) j ds g) ≡ models i o g
  unfolding add_parts component_of annotate
  models-add_parts i o n j nil g = refl
  models-add_parts i o n j (cons d ds) g =
      models-add_parts i o n j ds _
      ∙ ground (arith, models-add_component i o (annotate (component_of joining n) d j false) g)

not_duplicate :
    (r s : Result (Unit {0})) (t : Bool) → (r >> (s >> raise_if t value_error)) ≡ ok tt → t ≡ false
not_duplicate r s t h = ground arith

-- The calls that build a graph, and the arrival of data.
pub data Call (V : Type 0) : Type 0 where
  input : Dtype → Text → Text → Call V
  task : Component → Dtype → Dtype → Bool → Call V
  model_investigator model_agent : ℕ → Dtype → Dtype → Call V
  barrier : ℕ → List Dtype → Call V
  data_join : ℕ → Dtypes → Call V
  data_split : ℕ → Dtype → List Dtype → Call V
  data_in : TypedData V → Call V

module _ {V : Type 0} where
  unfoldable pub call : Call V → Graph V → Result (Unit {0}) × Graph V
  call (input d channel codec) g = add_input d channel codec g
  call (task c i o persistent) g = add_task c i o persistent g
  call (model_investigator n i o) g = add_investigator n i o g
  call (model_agent n i o) g = add_agent n i o g
  call (barrier b ds) g = add_barrier b ds g
  call (data_join n ds) g = add_data_join n ds g
  call (data_split n i outs) g = add_data_split_task n i outs g
  call (data_in t) g = (ok tt, put_to_dtype_queue t g)

  unfoldable pub calls : List (Call V) → Graph V → Graph V
  unfolding call
  calls [] g = g
  calls (x ∷ xs) g = calls xs (call x g).1

  -- Each route, an input and an output data type, is served by one model at most.
  abbrev pub HasUniqueRoutes : Graph V → Type 0
  HasUniqueRoutes g = (i o : Dtype) → models i o g ≤ 1

  guarded-le :
      (i o : Dtype) (r : Result (Unit {0})) (g g' : Graph V)
      → models i o g ≤ 1
      → (r ≡ ok tt → models i o g' ≤ 1)
      → models i o (guarded r g g').1 ≤ 1
  guarded-le i o (ok u) g g' h k = k refl
  guarded-le i o (raise e) g g' h k = h

  pub add_model-le :
      (k : Kind) (n : ℕ) (i o : Dtype) (g : Graph V)
      → HasUniqueRoutes g
      → HasUniqueRoutes (add_model k n i o g).1
  unfolding add_model
  add_model-le k n i o g h i' o' = guarded-le i' o' _ g _ (h i' o') (λ e.
      let fresh =
        not_duplicate (check_mutable g) (assert (not (i == truthy))) (has_route i o g) e in
      ground (
        arith,
        h i' o',
        models-add_component i' o' (annotate (component_of k n) i o false) g,
        any-count (takes_route o) (items i g.components) fresh,
        ==_iff i i',
        ==_iff o o',
      ))

  pub add_task-le :
      (c : Component) (i o : Dtype) (persistent : Bool) (g : Graph V)
      → HasUniqueRoutes g
      → HasUniqueRoutes (add_task c i o persistent g).1
  unfolding add_task
  add_task-le c i o persistent g h i' o' =
      guarded-le i' o' (check_mutable g >> assert (is_utility c.kind)) g
        (run_if_truthy (annotate c i o persistent) (add_component (annotate c i o persistent) g))
        (h i' o')
        (λ e. ground (arith, h i' o', models-add_component i' o' (annotate c i o persistent) g))

  add_input-le :
      (d : Dtype) (channel codec : Text) (g : Graph V)
      → HasUniqueRoutes g
      → HasUniqueRoutes (add_input d channel codec g).1
  unfolding add_input
  add_input-le d channel codec g h i o =
      guarded-le i o (check_mutable g >> (check_channel channel >> check_codec codec)) g
        (bind_input (d, (channel, codec)) g) (h i o) (λ e. ground (arith, h i o))

  add_barrier-le :
      (b : ℕ) (ds : List Dtype) (g : Graph V)
      → HasUniqueRoutes g
      → HasUniqueRoutes (add_barrier b ds g).1
  unfolding add_barrier
  add_barrier-le b ds g h i o =
      guarded-le i o (check_mutable g) g (to_task (barrier_run b) (chain_barrier b ds g)) (h i o)
        (λ e. rw (components-chain_barrier b ds g) (h i o))

  add_data_join-le :
      (n : ℕ) (ds : Dtypes) (g : Graph V)
      → HasUniqueRoutes g
      → HasUniqueRoutes (add_data_join n ds g).1
  unfolding add_data_join
  add_data_join-le n ds g h i o =
      guarded-le i o (raise_if (has (join ds) g.join_components) value_error) g
        (to_task (main_loop (component_of joining n)) (
          add_parts (component_of joining n) (join ds) ds (record g {
            join_components = insert (join ds) (component_of joining n) g.join_components;
          })))
        (h i o) (λ e. rw (models-add_parts i o n (join ds) ds _) (h i o))

  add_data_split_task-le :
      (n : ℕ) (i : Dtype) (outs : List Dtype) (g : Graph V)
      → HasUniqueRoutes g
      → HasUniqueRoutes (add_data_split_task n i outs g).1
  unfolding add_data_split_task
  add_data_split_task-le n i outs g h i' o =
      guarded-le i' o (assert (not (i == truthy))) g
        (add_component
          (record (annotate (component_of split n) i null_dtype false) { split_outputs = outs }) g)
        (h i' o)
        (λ e. ground (
          arith,
          h i' o,
          models-add_component i' o
              (record (annotate (component_of split n) i null_dtype false) { split_outputs = outs })
              g,
        ))

  put_to_dtype_queue-le :
      (t : TypedData V) (g : Graph V) → HasUniqueRoutes g → HasUniqueRoutes (put_to_dtype_queue t g)
  unfolding put_to_dtype_queue
  put_to_dtype_queue-le t g h i o = ground (arith, h i o)

  call-HasUniqueRoutes :
      (x : Call V) (g : Graph V) → HasUniqueRoutes g → HasUniqueRoutes (call x g).1
  unfolding call add_investigator add_agent
  call-HasUniqueRoutes (input d channel codec) g h = add_input-le d channel codec g h
  call-HasUniqueRoutes (task c i o persistent) g h = add_task-le c i o persistent g h
  call-HasUniqueRoutes (model_investigator n i o) g h = add_model-le investigator n i o g h
  call-HasUniqueRoutes (model_agent n i o) g h = add_model-le agent n i o g h
  call-HasUniqueRoutes (barrier b ds) g h = add_barrier-le b ds g h
  call-HasUniqueRoutes (data_join n ds) g h = add_data_join-le n ds g h
  call-HasUniqueRoutes (data_split n i outs) g h = add_data_split_task-le n i outs g h
  call-HasUniqueRoutes (data_in t) g h = put_to_dtype_queue-le t g h

  -- However a graph with unique routes is built on, no two investigators or agents serve the same
  -- input and output data types.
  pub calls-HasUniqueRoutes :
      (xs : List (Call V)) (g : Graph V) → HasUniqueRoutes g → HasUniqueRoutes (calls xs g)
  unfolding calls
  calls-HasUniqueRoutes [] g h = h
  calls-HasUniqueRoutes (x ∷ xs) g h =
      calls-HasUniqueRoutes xs (call x g).1 (call-HasUniqueRoutes x g h)

  -- On a twin that has not stopped or failed, a second investigator or agent for a route whose input
  -- is not `TRUTHY` is refused with `ValueError`, and the graph stays.
  pub duplicate_model_refused :
      (n m : ℕ) (i o : Dtype) (g : Graph V)
      → is_terminal g.life.state ≡ false
      → (i == truthy) ≡ false
      → has_route i o g ≡ true
      → (add_investigator n i o g ≡ (raise value_error, g))
        × (add_agent m i o g ≡ (raise value_error, g))
  unfolding add_investigator add_agent
  duplicate_model_refused n m i o g t p h = ground arith
