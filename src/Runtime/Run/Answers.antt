-- ===== src/Runtime/Run/Answers.antt =====
-- What a run of a component may send and answer, by its class and by `skip_queue_out`.
-- `_run_component` and `get_inference`, src/digitaltwin/runtime.py.
pub mod Typing
use digital_twin_framework.Prelude.{
  ℕ, Bool, true, false, not, ◌||◌, ◌&&◌, List, [], ◌∷◌, ◌++◌, Option, none, some, Result, ok, raise,
  type_error, assertion_error, value_error, Error, if◌then◌else◌, ◌==◌, ==_iff, lookup, ◌≡◌, ◌≢◌,
  refl, subst, sym, All, All-append, Bool-cases, inl, inr, ◌⊎◌, contains, false≢true, get_or_else,
  Eq, nat_eq, ◌∙◌, Dict, arith, &&_iff,
}
use digital_twin_framework.Dtype.{Dtype, TypedData}
use digital_twin_framework.Dtype.Equality.{dtype_has_eq}
use digital_twin_framework.Runtime.Graph.{
  Kind, utility, split, investigator, agent, joining, null_dtype, Annotated, truthy,
}
use digital_twin_framework.Runtime.Act.{
  Act, Ending, waits, raises, returns, Effect, fire, put, join_update, subscribe_output,
  spawn_main_loop, continue, ◌>>=◌, ◌>>◌, pure, throw, wait_for, ensure, perform, awaited,
}
use digital_twin_framework.Runtime.Run.{
  Event, on_input, on_output, on_filtered_input, on_filtered_output, Investigator, Live, Answer,
  nothing, single, several, UserCode, fires, child_fires, parts_match, part_puts, send_parts,
  publish_answer, utility_answer, model_answer, call_inference, run_investigator, agent_answer,
  answer_fires, run_selected, select_model, run_agent, run_persistent, run_kind, input_fires,
  run_component, or_null, get_inference,
}
use digital_twin_framework.Runtime.Run.Emits.{
  Sends, Returns, Emits, >>=-Emits, fires-Sends, answer_fires-Sends, Optionally, perform->>-Emits,
  ensure->>-Emits, wait_for->>-Emits, awaited->>=-Emits, pure-Emits, throw-Emits,
}

module _ {V Kw : Type 0} (R : TypedData V → Type 0) where
  pub child_fires-Sends :
      (e : Event) (is : Dict ℕ (Investigator Kw)) (t : TypedData V)
      → All (Sends R) (child_fires e is t)
  unfolding child_fires
  child_fires-Sends e [] t = tt
  child_fires-Sends e ((k, i) ∷ is) t =
      All-append (Sends R) (fires (i.subscriptions e) t) (child_fires e is t)
        (fires-Sends R (i.subscriptions e) t) (child_fires-Sends e is t)

  on_input-Sends :
      (c : Live Kw) (t : TypedData V)
      → All
          (Sends R)
          (fires (c.model.subscriptions on_input) t ++ child_fires on_input c.investigators t)
  on_input-Sends c t =
      All-append (Sends R) (fires (c.model.subscriptions on_input) t)
        (child_fires on_input c.investigators t) (fires-Sends R (c.model.subscriptions on_input) t)
        (child_fires-Sends on_input c.investigators t)

  pub input_fires-Sends :
      (k : Kind) (c : Live Kw) (t : TypedData V) → All (Sends R) (input_fires k c t)
  unfolding input_fires
  input_fires-Sends joining c t = tt
  input_fires-Sends utility c t = on_input-Sends c t
  input_fires-Sends split c t = on_input-Sends c t
  input_fires-Sends investigator c t = on_input-Sends c t
  input_fires-Sends agent c t = on_input-Sends c t

module _ {V : Type 0} (R : TypedData V → Type 0) where
  queued-Sends :
      (skip : Bool) (t : TypedData V)
      → (skip ≡ false → R t)
      → All (Sends R) (if skip then [] else put t ∷ [])
  unfolding Sends
  queued-Sends true t h = tt
  queued-Sends false t h = (h refl, tt)

-- The end of a run sends its answer, unless it is to be skipped, and returns it.
module _ {V Kw : Type 0} (R Q : TypedData V → Type 0) where
  sent-Emits :
      (c : Live Kw) (in_data answer : TypedData V) (skip null : Bool)
      → (skip ≡ false → R answer)
      → Q answer
      → Emits R (Optionally Q) (
          if null then pure none else do
            ensure (not (answer.dtype == null_dtype)) assertion_error
            perform (fires (c.model.subscriptions on_output) answer)
            perform (child_fires on_output c.investigators in_data)
            perform (if skip then [] else put answer ∷ [])
            pure (some answer))
  unfolding Optionally
  sent-Emits c in_data answer skip true h q = pure-Emits R (Optionally Q) none tt
  sent-Emits c in_data answer skip false h q = ensure->>-Emits R (Optionally Q) _ _ _ (λ e.
      (perform->>-Emits R (Optionally Q) _ _
        (fires-Sends R (c.model.subscriptions on_output) answer)
        (perform->>-Emits R (Optionally Q) _ _
          (child_fires-Sends R on_output c.investigators in_data)
          (perform->>-Emits R (Optionally Q) _ _ (queued-Sends R skip answer h)
            (pure-Emits R (Optionally Q) (some answer) q)))))

  pub publish_answer-Emits :
      (c : Live Kw) (in_data answer : TypedData V) (skip : Bool)
      → (skip ≡ false → R answer)
      → Q answer
      → Emits R (Optionally Q) (publish_answer c in_data answer skip)
  unfolding publish_answer
  publish_answer-Emits c in_data answer skip h q =
      sent-Emits c in_data answer skip (c.annotated.output_dtype == null_dtype) h q

-- A run, when answers of the output data type (of any type, for an agent) may be sent and returned.
module _ {V Kw : Type 0} (R Q : TypedData V → Type 0) (u : UserCode V Kw) (c : Live Kw)
    (skip : Bool) (t : TypedData V) where
  Fits : Type 0
  Fits = (a : TypedData V) → a.dtype ≡ c.annotated.output_dtype → (skip ≡ false → R a) × Q a

  checked-Emits :
      (a : TypedData V)
      → Fits
      → Emits R
          (Optionally Q)
          (ensure (a.dtype == c.annotated.output_dtype) value_error >> publish_answer c t a skip)
  unfolding Fits
  checked-Emits a fits = ensure->>-Emits R (Optionally Q) _ _ _ (λ e.
      let f = fits a ((==_iff a.dtype c.annotated.output_dtype).0 e) in
      publish_answer-Emits R Q c t a skip f.0 f.1)

  utility_answer-Emits : (a : Answer V) → Fits → Emits R (Optionally Q) (utility_answer c t skip a)
  unfolding utility_answer Optionally
  utility_answer-Emits nothing fits = pure-Emits R (Optionally Q) none tt
  utility_answer-Emits (several ps) fits = throw-Emits R (Optionally Q) assertion_error
  utility_answer-Emits (single a) fits =
      elim (a.dtype == null_dtype)
        as (λ b. Emits R (Optionally Q) (
          if b
          then pure none
          else (ensure (a.dtype == c.annotated.output_dtype) value_error
              >> publish_answer c t a skip))) [
                | true ↦ pure-Emits R (Optionally Q) none tt
                | false ↦ checked-Emits a fits
              ]

  model_answer-Emits :
      (a : Option (TypedData V)) → Fits → Emits R (Optionally Q) (model_answer c t skip a)
  unfolding model_answer Optionally
  model_answer-Emits none fits = pure-Emits R (Optionally Q) none tt
  model_answer-Emits (some a) fits = checked-Emits a fits

  spawned : Emits R (Optionally Q) (perform (spawn_main_loop t ∷ []) >> pure none)
  unfolding Optionally Sends
  spawned =
      perform->>-Emits R (Optionally Q) (spawn_main_loop t ∷ []) _ (tt, tt)
        (pure-Emits R (Optionally Q) none tt)

  persistent-Emits : (consumed : Bool) → Emits R (Optionally Q) (run_persistent consumed c t)
  unfolding run_persistent Optionally Sends
  persistent-Emits true =
      perform->>-Emits R (Optionally Q) (subscribe_output c.annotated.output_dtype ∷ []) _ (tt, tt)
        spawned
  persistent-Emits false = perform->>-Emits R (Optionally Q) [] _ tt spawned

  inference-Emits :
      (task : Option ℕ) (kw : Option Kw) (e : Error)
      (f : Option (TypedData V) → Act V (Option (TypedData V)))
      → ((a : Option (TypedData V)) → Emits R (Optionally Q) (f a))
      → Emits R (Optionally Q) (call_inference u task kw t e >>= f)
  unfolding call_inference ◌>>=◌ continue
  inference-Emits none kw e f h = throw-Emits R (Optionally Q) e
  inference-Emits (some k) none e f h = throw-Emits R (Optionally Q) type_error
  inference-Emits (some k) (some kw) e f h = awaited->>=-Emits R (Optionally Q) (u.infer k t kw) f h

  agent_answer-Emits :
      (a : Option (TypedData V))
      → ((a : TypedData V) → (skip ≡ false → R a) × Q a)
      → Emits R (Optionally Q) (agent_answer c t skip a)
  unfolding agent_answer Optionally
  agent_answer-Emits none fits =
      elim (c.annotated.output_dtype == null_dtype)
        as (λ b. Emits R (Optionally Q) (if b then pure none else throw assertion_error)) [
          | true ↦ pure-Emits R (Optionally Q) none tt
          | false ↦ throw-Emits R (Optionally Q) assertion_error
        ]
  agent_answer-Emits (some a) fits = publish_answer-Emits R Q c t a skip (fits a).0 (fits a).1

  run_selected-Emits :
      (kw : Option Kw) (i : Option (Investigator Kw))
      → ((a : TypedData V) → (skip ≡ false → R a) × Q a)
      → Emits R (Optionally Q) (run_selected u c t skip kw i)
  unfolding run_selected Optionally
  run_selected-Emits kw none fits = pure-Emits R (Optionally Q) none tt
  run_selected-Emits kw (some i) fits =
      perform->>-Emits R (Optionally Q) _ _ (fires-Sends R (i.subscriptions on_filtered_input) t) (
        wait_for->>-Emits R (Optionally Q) _ _ (
          inference-Emits i.inference_task _ type_error _ (λ a.
            perform->>-Emits R (Optionally Q) _ _
              (answer_fires-Sends R (i.subscriptions on_filtered_output) a)
              (agent_answer-Emits a fits))))

  investigator-Emits : Fits → Emits R (Optionally Q) (run_investigator u c t skip)
  unfolding run_investigator
  investigator-Emits fits =
      wait_for->>-Emits R (Optionally Q) _ _ (
        inference-Emits c.model.inference_task _ assertion_error _ (λ a. model_answer-Emits a fits))

  select-Emits :
      (task : Option ℕ) (f : ℕ × Option Kw → Act V (Option (TypedData V)))
      → ((a : ℕ × Option Kw) → Emits R (Optionally Q) (f a))
      → Emits R (Optionally Q) (select_model u task t >>= f)
  unfolding select_model ◌>>=◌ continue
  select-Emits none f h = throw-Emits R (Optionally Q) assertion_error
  select-Emits (some k) f h = awaited->>=-Emits R (Optionally Q) (u.select k t) f h

  agent-Emits :
      ((a : TypedData V) → (skip ≡ false → R a) × Q a)
      → Emits R (Optionally Q) (run_agent u c t skip)
  unfolding run_agent
  agent-Emits fits = wait_for->>-Emits R (Optionally Q) _ _ (
      select-Emits c.model_select_task _
        (λ choice. run_selected-Emits choice.1 (lookup choice.0 c.investigators) fits))

  utility-Emits :
      (consumed : Bool) → Fits → Emits R (Optionally Q) (run_kind utility u consumed c t skip)
  unfolding run_kind
  utility-Emits consumed fits =
      elim c.annotated.is_persistent
        as (λ b. Emits R (Optionally Q) (
          if b
          then run_persistent consumed c t
          else (awaited (u.main_loop c.annotated.component t) >>= utility_answer c t skip))) [
            | true ↦ persistent-Emits consumed
            | false ↦ awaited->>=-Emits R (Optionally Q) _ _ (λ a. utility_answer-Emits a fits)
          ]

  part_puts-Sends :
      (ps : List (Option (TypedData V))) (ds : List Dtype)
      → parts_match ps ds ≡ true
      → ((a : TypedData V) → contains ds a.dtype ≡ true → R a)
      → All (Sends R) (part_puts ps)
  unfolding parts_match part_puts Sends
  part_puts-Sends [] ds h declared = tt
  part_puts-Sends (p ∷ ps) [] h declared = absurd (false≢true h)
  part_puts-Sends (none ∷ ps) (d ∷ ds) h declared =
      part_puts-Sends ps ds h (λ a k. declared a (ground arith))
  part_puts-Sends (some a ∷ ps) (d ∷ ds) h declared = (
    declared a (ground (arith, ==_iff a.dtype d, ==_iff d a.dtype)),
    part_puts-Sends ps ds (ground arith) (λ b k. declared b (ground arith)),
  )

  send_parts-Emits :
      (a : Answer V)
      → ((a : TypedData V) → contains c.annotated.split_outputs a.dtype ≡ true → R a)
      → Emits R (Optionally Q) (send_parts c.annotated a)
  unfolding send_parts Optionally
  send_parts-Emits nothing declared = throw-Emits R (Optionally Q) assertion_error
  send_parts-Emits (single a) declared = throw-Emits R (Optionally Q) type_error
  send_parts-Emits (several ps) declared = ensure->>-Emits R (Optionally Q) _ _ _ (λ e.
      perform->>-Emits R (Optionally Q) _ _
        (part_puts-Sends ps c.annotated.split_outputs e declared)
        (pure-Emits R (Optionally Q) none tt))

  split-Emits :
      (consumed : Bool)
      → ((a : TypedData V) → contains c.annotated.split_outputs a.dtype ≡ true → R a)
      → Emits R (Optionally Q) (run_kind split u consumed c t skip)
  unfolding run_kind
  split-Emits consumed declared =
      elim c.annotated.is_persistent
        as (λ b. Emits R (Optionally Q) (
          if b
          then run_persistent consumed c t
          else (awaited (u.main_loop c.annotated.component t) >>= send_parts c.annotated))) [
            | true ↦ persistent-Emits consumed
            | false ↦ awaited->>=-Emits R (Optionally Q) _ _ (λ a. send_parts-Emits a declared)
          ]

  joining-Emits : (consumed : Bool) → Emits R (Optionally Q) (run_kind joining u consumed c t skip)
  unfolding run_kind Optionally Sends
  joining-Emits consumed =
      perform->>-Emits R (Optionally Q) (join_update t ∷ []) _ (tt, tt)
        (pure-Emits R (Optionally Q) none tt)

  -- The part before the class of the component matters.
  pub run_component-Emits :
      (is_start consumed : Bool)
      → Emits R (Optionally Q) (run_kind c.annotated.component.kind u consumed c t skip)
      → Emits R (Optionally Q) (run_component u is_start consumed c t skip)
  unfolding run_component
  run_component-Emits is_start consumed h = wait_for->>-Emits R (Optionally Q) _ _ (
      ensure->>-Emits R (Optionally Q) _ _ _ (λ e.
        perform->>-Emits R (Optionally Q) _ _ (input_fires-Sends R c.annotated.component.kind c t)
          h))
