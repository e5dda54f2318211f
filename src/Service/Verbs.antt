-- ===== src/Service/Verbs.antt =====
-- The handlers of the verbs, `DTSession._verb_add_task` to `_verb_get_inference`, with `_instantiate`
-- and `Package.instantiate`, src/digitaltwin/service/session.py and wire.py, over the graph of a
-- runtime. The classes that a client ships and the runs of its components are parameters. Times are in
-- milliseconds.
pub mod Atomic
pub mod Refining
use digital_twin_framework.Prelude.{
  ℕ, zero, suc, Text, codes, Bool, true, false, ◌&&◌, List, [], ◌∷◌, Option, none, some, Result, ok,
  raise, ltb, if◌then◌else◌,
}
use digital_twin_framework.Dtype.{Dtype, TypedData}
use digital_twin_framework.Runtime.Lifecycle
use digital_twin_framework.Runtime.Lifecycle.{Life}
use digital_twin_framework.Runtime.Graph.{Component, Graph, Job, add_task, add_model}
use digital_twin_framework.Runtime.Describe.{Description}
use digital_twin_framework.Service.Calls.{Failure, timed_out, client_error, failure_of}

-- What `flow.function_task` names: the engine's own method, or the wrapper that counts.
pub data FunctionTask : Type 0 where
  original : FunctionTask
  counting : FunctionTask → FunctionTask

-- The engine, and how many function tasks were registered with it.
pub record Flow : Type 0 where
  pub function_task : FunctionTask
  pub registered : ℕ

-- A call of `flow.function_task`, on the count of the wrapper and that of the engine.
unfoldable pub call_task : FunctionTask → ℕ × ℕ → ℕ × ℕ
call_task original (count, n) = (count, suc n)
call_task (counting f) (count, n) = let inner = call_task f (zero, n) in (suc count, inner.1)

unfoldable pub call_tasks : ℕ → FunctionTask → ℕ × ℕ → ℕ × ℕ
unfolding call_task
call_tasks zero f s = s
call_tasks (suc k) f s = call_tasks k f (call_task f s)

-- How a constructor ends.
pub data Built : Type 0 where
  built : Component → Built
  init_raised : Failure → Built

-- What comes of an instantiation: the component, whether a warning was logged, and the engine.
pub record Instantiated : Type 0 where
  pub component : Built
  pub warned : Bool
  pub flow : Flow

abbrev pub is_built : Built → Bool
is_built (built c) = true
is_built (init_raised f) = false

-- The constructor of a package has registered `count` function tasks through the wrapper.
instantiated : Built → Bool → ℕ × ℕ → Flow → Instantiated
instantiated b persistent (count, n) flow = record {
  component = b;
  warned = is_built b && (persistent && ltb 0 count);
  flow = record flow { registered = n };
}

-- `_instantiate` of a package whose constructor registers so many function tasks and ends so. The
-- constructor runs while the wrapper stands in for the method, which comes back in any case.
unfoldable pub instantiate : ℕ × Built → Bool → Flow → Instantiated
unfolding call_tasks instantiated
instantiate (k, b) persistent flow =
    instantiated b persistent (call_tasks k (counting flow.function_task) (zero, flow.registered))
      flow

-- The `timeout` of an inference: no number, a negative one, an amount, or `float("inf")`.
pub data Timeout : Type 0 where
  no_number negative infinite : Timeout
  amount : ℕ → Timeout

-- 600 s
abbrev pub default_inference_timeout : ℕ
default_inference_timeout = 600000

-- The bound on the wait.
abbrev pub bound : Timeout → Option ℕ
bound no_number = some default_inference_timeout
bound negative = some default_inference_timeout
bound infinite = none
bound (amount zero) = some default_inference_timeout
bound (amount (suc t)) = some (suc t)

-- The arguments of a request, by their shape: `none` is a component argument that is no `Package`, and
-- `misfit` are arguments that fit no handler.
pub data Args (V P : Type 0) : Type 0 where
  task_args : Option P → Dtype → Dtype → Bool → Args V P
  model_args : Option P → Dtype → Dtype → Args V P
  inference_args : TypedData V → Dtype → Timeout → Args V P
  no_args misfit : Args V P

pub data Verb : Type 0 where
  verb_add_task verb_add_investigator verb_add_agent verb_start verb_stop : Verb
  verb_describe verb_get_inference : Verb

-- A handler with the arguments that Python bound to its parameters.
pub data Call (V P : Type 0) : Type 0 where
  call_add_task : Option P → Dtype → Dtype → Bool → Call V P
  call_add_model : Option P → Dtype → Dtype → Call V P
  call_start call_stop call_describe call_misfit : Call V P
  call_get_inference : TypedData V → Dtype → Timeout → Call V P

-- Arguments that do not fit are a `TypeError`. `add_investigator` and `add_agent` pass an argument too
-- many on to the main loop.
unfoldable pub call_of : {V P : Type 0} → Verb → Args V P → Call V P
call_of verb_add_task (task_args p i o persistent) = call_add_task p i o persistent
call_of verb_add_task (model_args p i o) = call_add_task p i o false
call_of verb_add_investigator (model_args p i o) = call_add_model p i o
call_of verb_add_investigator (task_args p i o extra) = call_add_model p i o
call_of verb_add_agent (model_args p i o) = call_add_model p i o
call_of verb_add_agent (task_args p i o extra) = call_add_model p i o
call_of verb_start no_args = call_start
call_of verb_stop no_args = call_stop
call_of verb_describe no_args = call_describe
call_of verb_get_inference (inference_args t o timeout) = call_get_inference t o timeout
call_of v args = call_misfit

-- `getattr(self, f"_verb_{verb}")`
abbrev pub verb_text : Verb → Text
verb_text verb_add_task = codes "add_task"
verb_text verb_add_investigator = codes "add_investigator"
verb_text verb_add_agent = codes "add_agent"
verb_text verb_start = codes "start"
verb_text verb_stop = codes "stop"
verb_text verb_describe = codes "describe"
verb_text verb_get_inference = codes "get_inference"

-- The runtime of a twin, and its engine.
pub record Served (V : Type 0) : Type 0 where
  pub graph : Graph V
  pub flow : Flow

-- The extra fields of an answer.
pub data Reply : Type 0 where
  no_fields : Reply
  graph_field : Description → Reply
  inference_field : Text → Reply

pub data Done : Type 0 where
  gave : Reply → Done
  failed : Failure → Done

-- When and how a handler ends, if it does, and what it leaves.
abbrev pub Handled : Type 0 → Type 0
Handled V = Option (ℕ × Done) × Served V

-- A constructor by its package, how long a teardown takes and what its close raises, `describe`, and an inference: when the run is over, if it ever is,
-- and the encoded answer or the exception.
pub record Given (V P : Type 0) : Type 0 where
  pub constructor : P → ℕ × Built
  pub stops : ℕ × Option Text
  pub describe : Graph V → Description
  pub infer : TypedData V → Dtype → Graph V → Option (ℕ × Done)

-- `asyncio.wait_for`, which cancels what is late.
unfoldable pub wait_for : Option ℕ → Option (ℕ × Done) → Option (ℕ × Done)
wait_for none run = run
wait_for (some t) none = some (t, failed timed_out)
wait_for (some t) (some (u, d)) = if ltb t u then some (t, failed timed_out) else some (u, d)

abbrev done_of : Result (Unit {0}) → Done
done_of (ok u) = gave no_fields
done_of (raise e) = failed (failure_of e)

module _ {V : Type 0} where
  at_once : Done → Served V → Handled V
  at_once d s = (some (zero, d), s)

  added : Result (Unit {0}) × Graph V → Flow → Handled V
  unfolding at_once
  added (r, g) flow = at_once (done_of r) (record { graph = g; flow = flow })

  -- A component that `_instantiate` gave is handed to a method of the runtime.
  add_built :
      (Component → Graph V → Result (Unit {0}) × Graph V) → Built → Flow → Graph V → Handled V
  unfolding added at_once
  add_built add (init_raised f) flow g = at_once (failed f) (record { graph = g; flow = flow })
  add_built add (built c) flow g = added (add c g) flow

  module _ {P : Type 0} (given : Given V P) where
    add_package :
        Option P → Bool → (Component → Graph V → Result (Unit {0}) × Graph V) → Served V → Handled V
    unfolding at_once instantiate add_built
    add_package none persistent add s = at_once (failed client_error) s
    add_package (some p) persistent add s =
        let x = instantiate (given.constructor p) persistent s.flow in
        add_built add x.component x.flow s.graph

    started : Result (Unit {0}) × Life Job → Served V → Handled V
    unfolding at_once
    started (r, l) s = at_once (done_of r) (record s { graph = record s.graph { life = l } })

    -- The body of a handler. What the run of an inference does to the graph is in `Runtime.Run` and is
    -- left out here. `add_investigator` and `add_agent` take a component of any class.
    unfoldable pub perform : Call V P → Served V → Handled V
    unfolding add_package started at_once
    perform (call_add_task p i o persistent) s =
        add_package p persistent (λ c g. add_task c i o persistent g) s
    perform (call_add_model p i o) s = add_package p false (λ c g. add_model c.kind c.ident i o g) s
    perform call_start s = started (Lifecycle.start s.graph.life) s
    perform call_stop s = (
      some (given.stops.0, gave no_fields),
      record s {
        graph = record s.graph {
          life = Lifecycle.await_teardown given.stops.1 (Lifecycle.stop s.graph.life);
        };
      },
    )
    perform call_describe s = at_once (gave (graph_field (given.describe s.graph))) s
    perform (call_get_inference t o timeout) s =
        (wait_for (bound timeout) (given.infer t o s.graph), s)
    perform call_misfit s = at_once (failed client_error) s

    unfoldable pub handle : Verb → Args V P → Served V → Handled V
    unfolding perform
    handle v args s = perform (call_of v args) s
