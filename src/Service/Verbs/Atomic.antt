-- ===== src/Service/Verbs/Atomic.antt =====
-- What a verb leaves when it fails, and how long an inference may take.
-- src/digitaltwin/service/session.py.
use digital_twin_framework.Prelude.{
  ℕ, zero, suc, ◌+◌, Bool, false, ◌&&◌, List, [], ◌∷◌, Option, none, some, Result, ok, raise, Error,
  ltb, ◌≡◌, ◌↔◌, refl, arith, ap, ◌∙◌,
}
use digital_twin_framework.Dtype.{Dtype, TypedData}
use digital_twin_framework.Dtype.Equality.{dtype_has_eq}
use digital_twin_framework.Runtime.Lifecycle
use digital_twin_framework.Runtime.Lifecycle.{Life, is_terminal}
use digital_twin_framework.Runtime.Lifecycle.Terminal.{start-leaves}
use digital_twin_framework.Runtime.Graph.{Kind, Component, Graph, Job, add_task, add_model, guarded}
use digital_twin_framework.Runtime.Graph.Routes.{HasUniqueRoutes, add_task-le, add_model-le}
use digital_twin_framework.Service.Calls.{Failure}
use digital_twin_framework.Service.Verbs.{
  original, counting, Flow, call_task, call_tasks, Built, built, init_raised, instantiate, Timeout,
  no_number, negative, infinite, amount, Args, inference_args, Verb, verb_get_inference, Served,
  failed, Handled, Given, wait_for, handle, at_once, added, add_built, add_package, started, Call,
  call_of, perform, call_add_task, call_add_model, call_start, call_stop, call_describe,
  call_misfit, call_get_inference, is_built, instantiated,
}

call_tasks-counting : (k c n : ℕ) → call_tasks k (counting original) (c, n) ≡ (c + k, n + k)
unfolding call_tasks call_task
call_tasks-counting zero c n = ground arith
call_tasks-counting (suc k) c n = call_tasks-counting k (suc c) (suc n) ∙ ground arith

-- However a shipped constructor ends, the engine gets its own `function_task` back, every task that the
-- constructor registered has reached the engine, and the warning is logged exactly for a persistent
-- component that was built and registered a task.
pub instantiate_transparent :
    (k n : ℕ) (b : Built) (persistent : Bool)
    → instantiate (k, b) persistent (record { function_task = original; registered = n }) ≡ record {
      component = b;
      warned = is_built b && (persistent && ltb 0 k);
      flow = record { function_task = original; registered = n + k };
    }
unfolding instantiate instantiated
instantiate_transparent k n b persistent =
    let none_before : 0 + k ≡ k = omega arith in rw (call_tasks-counting k 0 n, none_before) refl

module _ {V : Type 0} where
  -- A method of the runtime that changes nothing when it raises.
  abbrev LeavesOnError : (Graph V → Result (Unit {0}) × Graph V) → Graph V → Type 0
  LeavesOnError add g = (e : Error) → (add g).0 ≡ raise e → (add g).1 ≡ g

  guarded-leaves :
      (r : Result (Unit {0})) (g g' : Graph V) (e : Error)
      → (guarded r g g').0 ≡ raise e
      → (guarded r g g').1 ≡ g
  guarded-leaves (ok u) g g' e h = cc
  guarded-leaves (raise x) g g' e h = refl

  add_task-leaves :
      (c : Component) (i o : Dtype) (p : Bool) (g : Graph V) → LeavesOnError (add_task c i o p) g
  unfolding add_task
  add_task-leaves c i o p g e h = guarded-leaves _ g _ e h

  add_model-leaves :
      (k : Kind) (n : ℕ) (i o : Dtype) (g : Graph V) → LeavesOnError (add_model k n i o) g
  unfolding add_model
  add_model-leaves k n i o g e h = guarded-leaves _ g _ e h

  -- The outcome of a handler that failed leaves the graph.
  abbrev Leaves : Handled V → Graph V → Type 0
  Leaves h g = (t : ℕ) (f : Failure) → h.0 ≡ some (t, failed f) → h.1.graph ≡ g

  added-Leaves :
      (r : Result (Unit {0}) × Graph V) (flow : Flow) (g : Graph V)
      → ((e : Error) → r.0 ≡ raise e → r.1 ≡ g)
      → (t : ℕ) (f : Failure) → (added r flow).0 ≡ some (t, failed f)
      → (added r flow).1.graph ≡ g
  unfolding added at_once
  added-Leaves (ok u, g') flow g k t f h = cc
  added-Leaves (raise e, g') flow g k t f h = k e refl

  add_built-Leaves :
      (add : Component → Graph V → Result (Unit {0}) × Graph V) (b : Built) (flow : Flow)
      (g : Graph V)
      → ((c : Component) → LeavesOnError (add c) g)
      → Leaves (add_built add b flow g) g
  unfolding add_built at_once
  add_built-Leaves add (built c) flow g k = added-Leaves (add c g) flow g (k c)
  add_built-Leaves add (init_raised x) flow g k = λ t f h. refl

  module _ {P : Type 0} (given : Given V P) where
    add_package-Leaves :
        (p : Option P) (persistent : Bool) (add : Component → Graph V → Result (Unit {0}) × Graph V)
        (s : Served V)
        → ((c : Component) → LeavesOnError (add c) s.graph)
        → Leaves (add_package given p persistent add s) s.graph
    unfolding add_package at_once
    add_package-Leaves none persistent add s k = λ t f h. refl
    add_package-Leaves (some p) persistent add s k = add_built-Leaves add _ _ s.graph k

    started-Leaves :
        (r : Result (Unit {0}) × Life Job) (s : Served V)
        → ((e : Error) → r.0 ≡ raise e → r.1 ≡ s.graph.life)
        → Leaves (started given r s) s.graph
    unfolding started at_once
    started-Leaves (ok u, l) s k = λ t f h. cc
    started-Leaves (raise e, l) s k = λ t f h. ap (λ z. record s.graph { life = z }) (k e refl)

    perform-Leaves : (c : Call V P) (s : Served V) → Leaves (perform given c s) s.graph
    unfolding perform at_once
    perform-Leaves (call_add_task p i o persistent) s =
        add_package-Leaves p persistent _ s (λ c. add_task-leaves c i o persistent s.graph)
    perform-Leaves (call_add_model p i o) s =
        add_package-Leaves p false _ s (λ c. add_model-leaves c.kind c.ident i o s.graph)
    perform-Leaves call_start s = started-Leaves _ s (start-leaves s.graph.life)
    perform-Leaves call_stop s = λ t f h. cc
    perform-Leaves call_describe s = λ t f h. refl
    perform-Leaves (call_get_inference d o timeout) s = λ t f h. refl
    perform-Leaves call_misfit s = λ t f h. refl

    -- A verb that fails, whatever the verb, its arguments and the failure, leaves the twin's graph and
    -- its life cycle exactly as they were.
    pub failed_verb_atomic :
        (v : Verb) (args : Args V P) (s : Served V) (t : ℕ) (f : Failure)
        → (handle given v args s).0 ≡ some (t, failed f)
        → (handle given v args s).1.graph ≡ s.graph
    unfolding handle
    failed_verb_atomic v args s t f h = perform-Leaves (call_of v args) s t f h

    -- Requests that a twin handles one after the other.
    unfoldable pub handle_all : List (Verb × Args V P) → Served V → Served V
    handle_all [] s = s
    handle_all ((v, args) ∷ rest) s = handle_all rest (handle given v args s).1

    added-HasUniqueRoutes :
        (r : Result (Unit {0}) × Graph V) (flow : Flow)
        → HasUniqueRoutes r.1
        → HasUniqueRoutes (added r flow).1.graph
    unfolding added at_once
    added-HasUniqueRoutes (r, g) flow h = h

    add_package-HasUniqueRoutes :
        (p : Option P) (persistent : Bool) (add : Component → Graph V → Result (Unit {0}) × Graph V)
        (s : Served V)
        → HasUniqueRoutes s.graph
        → ((c : Component) → HasUniqueRoutes (add c s.graph).1)
        → HasUniqueRoutes (add_package given p persistent add s).1.graph
    unfolding add_package at_once add_built
    add_package-HasUniqueRoutes none persistent add s h k = h
    add_package-HasUniqueRoutes (some p) persistent add s h k =
        let x = instantiate (given.constructor p) persistent s.flow in by_built x.component x.flow
      where
        by_built :
            (b : Built) (flow : Flow) → HasUniqueRoutes (add_built add b flow s.graph).1.graph
        by_built (built c) flow = added-HasUniqueRoutes (add c s.graph) flow (k c)
        by_built (init_raised f) flow = h

    started-HasUniqueRoutes :
        (r : Result (Unit {0}) × Life Job) (s : Served V)
        → HasUniqueRoutes s.graph
        → HasUniqueRoutes (started given r s).1.graph
    unfolding started at_once
    started-HasUniqueRoutes (r, l) s h = h

    perform-HasUniqueRoutes :
        (c : Call V P) (s : Served V)
        → HasUniqueRoutes s.graph
        → HasUniqueRoutes (perform given c s).1.graph
    unfolding perform at_once
    perform-HasUniqueRoutes (call_add_task p i o persistent) s h =
        add_package-HasUniqueRoutes p persistent _ s h (λ c. add_task-le c i o persistent s.graph h)
    perform-HasUniqueRoutes (call_add_model p i o) s h =
        add_package-HasUniqueRoutes p false _ s h (λ c. add_model-le c.kind c.ident i o s.graph h)
    perform-HasUniqueRoutes call_start s h =
        started-HasUniqueRoutes (Lifecycle.start s.graph.life) s h
    perform-HasUniqueRoutes call_stop s h = h
    perform-HasUniqueRoutes call_describe s h = h
    perform-HasUniqueRoutes (call_get_inference d o timeout) s h = h
    perform-HasUniqueRoutes call_misfit s h = h

    -- Whatever requests a client sends, with components of any class, each route of the twin's graph
    -- is served by one investigator or agent at most, if that held before.
    pub handle_all-HasUniqueRoutes :
        (requests : List (Verb × Args V P)) (s : Served V)
        → HasUniqueRoutes s.graph
        → HasUniqueRoutes (handle_all requests s).graph
    unfolding handle_all handle
    handle_all-HasUniqueRoutes [] s h = h
    handle_all-HasUniqueRoutes ((v, args) ∷ rest) s h =
        handle_all-HasUniqueRoutes rest (handle given v args s).1
          (perform-HasUniqueRoutes (call_of v args) s h)

    -- An inference whose run never ends holds its request for ever exactly if the client asked for an
    -- infinite timeout.
    pub endless_inference :
        (d : TypedData V) (o : Dtype) (timeout : Timeout) (s : Served V)
        → given.infer d o s.graph ≡ none
        → ((handle given verb_get_inference (inference_args d o timeout) s).0 ≡ none)
          ↔ (timeout ≡ infinite)
    unfolding handle perform call_of wait_for
    endless_inference d o no_number s h = rw h (λ k. cc, λ k. cc)
    endless_inference d o negative s h = rw h (λ k. cc, λ k. cc)
    endless_inference d o infinite s h = rw h (λ k. refl, λ k. refl)
    endless_inference d o (amount zero) s h = rw h (λ k. cc, λ k. cc)
    endless_inference d o (amount (suc n)) s h = rw h (λ k. cc, λ k. cc)
