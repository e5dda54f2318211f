-- ===== src/Runtime/Run.antt =====
-- The run of a component, `_run_component`, and inference through the graph, `get_inference`,
-- src/digitaltwin/runtime.py. What components compute is a parameter.
pub mod Emits
pub mod Answers
pub mod Queueing
use digital_twin_framework.Runtime.Act.{
  Effect, fire, put, join_update, subscribe_output, spawn_main_loop, Ending, waits, raises, returns,
  Act, continue, ◌>>=◌, ◌>>◌, pure, throw, wait_for, ensure, perform, awaited, fire_none,
}
use digital_twin_framework.Prelude.{
  ℕ, zero, suc, Text, Bool, true, false, not, ◌||◌, ◌&&◌, List, [], ◌∷◌, ◌++◌, Option, none, some,
  Result, ok, raise, value_error, type_error, assertion_error, Error, if◌then◌else◌, is_some, Eq,
  ◌==◌, nat_eq, eqb, Dict, lookup, has, get_or_else, length, map, values,
}
use digital_twin_framework.Dtype.{Dtype, TypedData}
use digital_twin_framework.Dtype.Equality.{dtype_has_eq}
use digital_twin_framework.Runtime.Graph.{
  truthy, null_dtype, Kind, utility, split, investigator, agent, joining, Component, Annotated,
  Graph, items,
}

-- The runtime events to which a component subscribes callbacks.
pub data Event : Type 0 where
  on_input on_output on_model_publish on_filtered_input on_filtered_output : Event

-- What the runtime keeps of an investigator; `Kw` is the type of keyword arguments, and `none`
-- stands for `None`.
pub record Investigator (Kw : Type 0) : Type 0 where
  pub subscriptions : Event → List ℕ
  pub model_kwargs : Option Kw
  pub inference_task : Option ℕ
  pub has_published_model : Bool

-- A component with what its API object has set on it. The `self` part is that of an investigator
-- of the graph; an agent has a selector and investigators of its own.
pub record Live (Kw : Type 0) : Type 0 where
  pub annotated : Annotated
  pub model : Investigator Kw
  pub investigators : Dict ℕ (Investigator Kw)
  pub model_select_task : Option ℕ
  pub has_published_selector : Bool

-- What a utility's main loop may return, and what a split's may.
pub data Answer (V : Type 0) : Type 0 where
  nothing : Answer V
  single : TypedData V → Answer V
  several : List (Option (TypedData V)) → Answer V

-- User code. A selector returns the number of an investigator, and arguments or `None`.
pub record UserCode (V Kw : Type 0) : Type 0 where
  pub main_loop : Component → TypedData V → Result (Answer V)
  pub infer : ℕ → TypedData V → Kw → Result (Option (TypedData V))
  pub select : ℕ → TypedData V → Result (ℕ × Option Kw)

module _ {V : Type 0} where
  unfoldable pub fires : List ℕ → TypedData V → List (Effect V)
  fires cbs t = map (λ cb. fire cb t) cbs

  -- The checks on a split's answer, pairwise with the declared outputs.
  unfoldable pub parts_match : List (Option (TypedData V)) → List Dtype → Bool
  parts_match [] [] = true
  parts_match [] (d ∷ ds) = false
  parts_match (p ∷ ps) [] = false
  parts_match (none ∷ ps) (d ∷ ds) = parts_match ps ds
  parts_match (some t ∷ ps) (d ∷ ds) = t.dtype == d && parts_match ps ds

  unfoldable pub part_puts : List (Option (TypedData V)) → List (Effect V)
  part_puts [] = []
  part_puts (none ∷ ps) = part_puts ps
  part_puts (some t ∷ ps) = put t ∷ part_puts ps

  -- What a splitting task returned. A single `TypedData` has no length.
  unfoldable pub send_parts : Annotated → Answer V → Act V (Option (TypedData V))
  unfolding part_puts parts_match
  send_parts a nothing = throw assertion_error
  send_parts a (single t) = throw type_error
  send_parts a (several ps) = do
    ensure (parts_match ps a.split_outputs) assertion_error
    perform (part_puts ps)
    pure none

  -- The callbacks of the selected investigator get the answer, also if it is `None`.
  unfoldable pub answer_fires : List ℕ → Option (TypedData V) → List (Effect V)
  unfolding fires
  answer_fires [] none = []
  answer_fires (cb ∷ cbs) none = fire_none cb ∷ answer_fires cbs none
  answer_fires cbs (some t) = fires cbs t

  -- Without an answer, the null type comes back.
  unfoldable pub or_null : V → Option (TypedData V) → TypedData V
  or_null null_value none = record { dtype = null_dtype; content = null_value }
  or_null null_value (some t) = t

module _ {V Kw : Type 0} where
  -- The callbacks of the child investigators for an event.
  unfoldable pub child_fires : Event → Dict ℕ (Investigator Kw) → TypedData V → List (Effect V)
  unfolding fires
  child_fires e [] t = []
  child_fires e ((k, i) ∷ rest) t = fires (i.subscriptions e) t ++ child_fires e rest t

  -- The end of a run with an answer: callbacks, then the queue. The last assertion is on the
  -- identity of the null data type; an answer whose data type is equal to it is taken to have that one
  -- object for it.
  unfoldable pub publish_answer :
      Live Kw → TypedData V → TypedData V → Bool → Act V (Option (TypedData V))
  unfolding fires child_fires
  publish_answer c in_data answer skip =
      if c.annotated.output_dtype == null_dtype then pure none else do
        ensure (not (answer.dtype == null_dtype)) assertion_error
        perform (fires (c.model.subscriptions on_output) answer)
        perform (child_fires on_output c.investigators in_data)
        perform (if skip then [] else put answer ∷ [])
        pure (some answer)

  -- The checks on a utility task's answer.
  unfoldable pub utility_answer :
      Live Kw → TypedData V → Bool → Answer V → Act V (Option (TypedData V))
  unfolding publish_answer
  utility_answer c in_data skip nothing = pure none
  utility_answer c in_data skip (several ps) = throw assertion_error
  utility_answer c in_data skip (single t) = if t.dtype == null_dtype then pure none else do
    ensure (t.dtype == c.annotated.output_dtype) value_error
    publish_answer c in_data t skip

  -- The checks on an investigator's answer.
  unfoldable pub model_answer :
      Live Kw → TypedData V → Bool → Option (TypedData V) → Act V (Option (TypedData V))
  unfolding publish_answer
  model_answer c in_data skip none = pure none
  model_answer c in_data skip (some t) = do
    ensure (t.dtype == c.annotated.output_dtype) value_error
    publish_answer c in_data t skip

  -- `**kwargs` of `None` is a `TypeError`, and a task that is `None` cannot be called.
  unfoldable pub call_inference :
      UserCode V Kw → Option ℕ → Option Kw → TypedData V → Error → Act V (Option (TypedData V))
  call_inference u none kw t e = throw e
  call_inference u (some task) none t e = throw type_error
  call_inference u (some task) (some kw) t e = awaited (u.infer task t kw)

  unfoldable pub run_investigator :
      UserCode V Kw → Live Kw → TypedData V → Bool → Act V (Option (TypedData V))
  unfolding model_answer call_inference ◌>>=◌
  run_investigator u c t skip = do
    wait_for c.model.has_published_model
    answer ← call_inference u c.model.inference_task c.model.model_kwargs t assertion_error
    model_answer c t skip answer

  -- An agent's answer is not checked against its output data type; a missing one is an assertion
  -- error, unless the agent has no output.
  unfoldable pub agent_answer :
      Live Kw → TypedData V → Bool → Option (TypedData V) → Act V (Option (TypedData V))
  unfolding publish_answer
  agent_answer c t skip none =
      if c.annotated.output_dtype == null_dtype then pure none else throw assertion_error
  agent_answer c t skip (some answer) = publish_answer c t answer skip

  unfoldable pub run_selected :
      UserCode V Kw
      → Live Kw
      → TypedData V
      → Bool
      → Option Kw
      → Option (Investigator Kw)
      → Act V (Option (TypedData V))
  unfolding agent_answer call_inference fires answer_fires ◌>>=◌
  run_selected u c t skip kw none = pure none
  run_selected u c t skip kw (some i) = do
    perform (fires (i.subscriptions on_filtered_input) t)
    wait_for i.has_published_model
    answer ←
        call_inference u i.inference_task (elim kw [ none ↦ i.model_kwargs | some k ↦ some k ]) t
          type_error
    perform (answer_fires (i.subscriptions on_filtered_output) answer)
    agent_answer c t skip answer

  unfoldable pub select_model : UserCode V Kw → Option ℕ → TypedData V → Act V (ℕ × Option Kw)
  select_model u none t = throw assertion_error
  select_model u (some task) t = awaited (u.select task t)

  unfoldable pub run_agent :
      UserCode V Kw → Live Kw → TypedData V → Bool → Act V (Option (TypedData V))
  unfolding run_selected select_model ◌>>=◌
  run_agent u c t skip = do
    wait_for c.has_published_selector
    choice ← select_model u c.model_select_task t
    run_selected u c t skip choice.1 (lookup choice.0 c.investigators)

  -- A persistent utility's output is subscribed to, if something consumes it, and its main loop
  -- goes on as a task.
  unfoldable pub run_persistent : Bool → Live Kw → TypedData V → Act V (Option (TypedData V))
  unfolding ◌>>=◌
  run_persistent consumed c t = do
    perform (if consumed then subscribe_output c.annotated.output_dtype ∷ [] else [])
    perform (spawn_main_loop t ∷ [])
    pure none

  unfoldable pub run_kind :
      Kind → UserCode V Kw → Bool → Live Kw → TypedData V → Bool → Act V (Option (TypedData V))
  unfolding run_persistent utility_answer send_parts run_investigator run_agent ◌>>=◌
  run_kind utility u consumed c t skip =
      if c.annotated.is_persistent
      then run_persistent consumed c t
      else (awaited (u.main_loop c.annotated.component t) >>= utility_answer c t skip)
  run_kind split u consumed c t skip =
      if c.annotated.is_persistent
      then run_persistent consumed c t
      else (awaited (u.main_loop c.annotated.component t) >>= send_parts c.annotated)
  run_kind investigator u consumed c t skip = run_investigator u c t skip
  run_kind agent u consumed c t skip = run_agent u c t skip
  run_kind joining u consumed c t skip = do perform (join_update t ∷ []); pure none

  -- The callbacks on every input; a join has none.
  unfoldable pub input_fires : Kind → Live Kw → TypedData V → List (Effect V)
  unfolding fires child_fires
  input_fires joining c t = []
  input_fires _ c t =
      fires (c.model.subscriptions on_input) t ++ child_fires on_input c.investigators t

  -- `is_start` and whether the output data type has a consumer come from the runtime.
  unfoldable pub run_component :
      UserCode V Kw → Bool → Bool → Live Kw → TypedData V → Bool → Act V (Option (TypedData V))
  unfolding run_kind input_fires ◌>>=◌
  run_component u is_start consumed c t skip = do
    wait_for is_start
    ensure (c.annotated.input_dtype == truthy || c.annotated.input_dtype == t.dtype) assertion_error
    perform (input_fires c.annotated.component.kind c t)
    run_kind c.annotated.component.kind u consumed c t skip

  -- `get_inference`: the first component for the input type that makes the output type and is not
  -- persistent is run past the queues; without one, or without an answer, the null type comes back.
  unfoldable pub get_inference :
      V → UserCode V Kw → Bool → List (Live Kw) → TypedData V → Dtype → Act V (TypedData V)
  unfolding run_component or_null ◌>>=◌
  get_inference null_value u is_start [] t req = pure (or_null null_value none)
  get_inference null_value u is_start (c ∷ cs) t req =
      let rest = get_inference null_value u is_start cs t req in
      if c.annotated.output_dtype == req && not c.annotated.is_persistent
      then (run_component u is_start false c t true >>= λ answer. pure (or_null null_value answer))
      else rest
