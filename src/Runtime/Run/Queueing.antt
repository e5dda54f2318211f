-- ===== src/Runtime/Run/Queueing.antt =====
-- A run that was fed by a queue and one that serves an inference: the two uses of `_run_component`,
-- src/digitaltwin/runtime.py.
use digital_twin_framework.Prelude.{
  Bool, true, false, not, ◌||◌, List, [], ◌∷◌, ◌++◌, append_assoc, Option, none, some, Error,
  assertion_error, value_error, type_error, ℕ, ◌==◌, lookup, if◌then◌else◌, ◌≡◌, ◌≢◌, refl, ap, sym,
  ◌∙◌, fun_ext, nat_eq,
}
use digital_twin_framework.Dtype.{TypedData}
use digital_twin_framework.Dtype.Equality.{dtype_has_eq}
use digital_twin_framework.Runtime.Act.{
  Effect, put, join_update, subscribe_output, spawn_main_loop, Ending, waits, raises, returns, Act,
  continue, ◌>>=◌, ◌>>◌, pure, throw, wait_for, ensure, perform, awaited,
}
use digital_twin_framework.Runtime.Graph.{
  truthy, null_dtype, Kind, utility, split, investigator, agent, joining,
}
use digital_twin_framework.Runtime.Run.{
  on_output, on_filtered_input, on_filtered_output, Investigator, Live, Answer, nothing, single,
  several, UserCode, fires, child_fires, answer_fires, publish_answer, utility_answer, model_answer,
  call_inference, run_investigator, agent_answer, run_selected, select_model, run_agent,
  run_persistent, run_kind, input_fires, run_component,
}

module _ {V A B C : Type 0} where
  continue_assoc :
      (es : List (Effect V)) (m : Ending A) (f : A → Act V B) (g : B → Act V C)
      → (continue es m f >>= g) ≡ continue es m (λ a. f a >>= g)
  unfolding continue ◌>>=◌
  continue_assoc es waits f g = refl
  continue_assoc es (raises e) f g = refl
  continue_assoc es (returns a) f g = after (f a).effects (f a).ending
    where
      after :
          (fs : List (Effect V)) (n : Ending B)
          → continue (es ++ fs) n g ≡ record {
            effects = es ++ (continue fs n g).effects;
            ending = (continue fs n g).ending;
          }
      after fs waits = refl
      after fs (raises e) = refl
      after fs (returns b) =
          ap (λ l. record { effects = l; ending = (g b).ending }) (append_assoc es fs (g b).effects)

  -- A sequence of three is one, however it is bracketed.
  pub bind_assoc :
      (m : Act V A) (f : A → Act V B) (g : B → Act V C)
      → ((m >>= f) >>= g) ≡ (m >>= λ a. (f a >>= g))
  unfolding ◌>>=◌
  bind_assoc m f g = continue_assoc m.effects m.ending f g

module _ {V A B : Type 0} where
  bind_cong : (m : Act V A) (f g : A → Act V B) → ((a : A) → f a ≡ g a) → (m >>= f) ≡ (m >>= g)
  bind_cong m f g h = ap (λ k. m >>= k) (fun_ext h)

module _ {V : Type 0} where
  puts : Option (TypedData V) → List (Effect V)
  puts none = []
  puts (some t) = put t ∷ []

  -- A run, and then its answer is put into the queue of its data type.
  unfoldable pub then_put : Act V (Option (TypedData V)) → Act V (Option (TypedData V))
  unfolding puts
  then_put m = m >>= λ o. (perform (puts o) >> pure o)

  then_put-bind :
      {A : Type 0} (m : Act V A) (f g : A → Act V (Option (TypedData V)))
      → ((a : A) → g a ≡ then_put (f a))
      → (m >>= g) ≡ then_put (m >>= f)
  unfolding then_put
  then_put-bind m f g h =
      bind_cong m g (λ a. then_put (f a)) h
      ∙ sym (bind_assoc m f (λ o. (perform (puts o) >> pure o)))

  -- A run without an answer returns, or raises.
  finish : Bool → Act V (Option (TypedData V))
  finish b = if b then pure none else throw assertion_error

  then_put->> :
      (m : Act V (Unit {0})) (f g : Act V (Option (TypedData V)))
      → g ≡ then_put f
      → (m >> g) ≡ then_put (m >> f)
  then_put->> m f g h = then_put-bind m (λ _. f) (λ _. g) (λ _. h)

  then_put-throw : (e : Error) → throw e ≡ then_put (throw e)
  unfolding then_put ◌>>=◌ continue
  then_put-throw e = refl

  then_put-none : pure none ≡ then_put (pure none)
  unfolding then_put ◌>>=◌ continue
  then_put-none = refl

  then_put-last :
      (a : TypedData V)
      → (perform (put a ∷ []) >> pure (some a)) ≡ then_put (perform [] >> pure (some a))
  unfolding then_put ◌>>=◌ continue
  then_put-last a = refl

module _ {V Kw : Type 0} where
  publish-then_put :
      (c : Live Kw) (t a : TypedData V)
      → publish_answer c t a false ≡ then_put (publish_answer c t a true)
  unfolding publish_answer
  publish-then_put c t a =
      elim (c.annotated.output_dtype == null_dtype)
        as (λ b.
          (if b
            then pure none
            else (ensure (not (a.dtype == null_dtype)) assertion_error
                >> (perform (fires (c.model.subscriptions on_output) a)
                    >> (perform (child_fires on_output c.investigators t)
                        >> (perform (put a ∷ []) >> pure (some a))))))
          ≡ then_put (
              if b
              then pure none
              else (ensure (not (a.dtype == null_dtype)) assertion_error
                  >> (perform (fires (c.model.subscriptions on_output) a)
                      >> (perform (child_fires on_output c.investigators t)
                          >> (perform [] >> pure (some a))))))) [
                            | true ↦ then_put-none
                            | false ↦
                                then_put->> (ensure (not (a.dtype == null_dtype)) assertion_error) _
                                  _
                                  (then_put->> (perform (fires (c.model.subscriptions on_output) a))
                                    _ _
                                    (then_put->> (perform (child_fires on_output c.investigators t))
                                      _ _ (then_put-last a)))
                          ]

  utility-then_put :
      (c : Live Kw) (t : TypedData V) (o : Answer V)
      → utility_answer c t false o ≡ then_put (utility_answer c t true o)
  unfolding utility_answer
  utility-then_put c t nothing = then_put-none
  utility-then_put c t (several ps) = then_put-throw assertion_error
  utility-then_put c t (single a) =
      elim (a.dtype == null_dtype)
        as (λ b.
          (if b
            then pure none
            else (ensure (a.dtype == c.annotated.output_dtype) value_error
                >> publish_answer c t a false))
          ≡ then_put (
              if b
              then pure none
              else (ensure (a.dtype == c.annotated.output_dtype) value_error
                  >> publish_answer c t a true))) [
                    | true ↦ then_put-none
                    | false ↦
                        then_put->> (ensure (a.dtype == c.annotated.output_dtype) value_error) _ _
                          (publish-then_put c t a)
                  ]

  model-then_put :
      (c : Live Kw) (t : TypedData V) (o : Option (TypedData V))
      → model_answer c t false o ≡ then_put (model_answer c t true o)
  unfolding model_answer
  model-then_put c t none = then_put-none
  model-then_put c t (some a) =
      then_put->> (ensure (a.dtype == c.annotated.output_dtype) value_error) _ _
        (publish-then_put c t a)

  agent-then_put :
      (c : Live Kw) (t : TypedData V) (o : Option (TypedData V))
      → agent_answer c t false o ≡ then_put (agent_answer c t true o)
  unfolding agent_answer finish
  agent-then_put c t none =
      elim (c.annotated.output_dtype == null_dtype)
        as (λ b. finish {V = V} b ≡ then_put (finish b)) [
          | true ↦ then_put-none
          | false ↦ then_put-throw assertion_error
        ]
  agent-then_put c t (some a) = publish-then_put c t a

  module _ (u : UserCode V Kw) where
    investigator-then_put :
        (c : Live Kw) (t : TypedData V)
        → run_investigator u c t false ≡ then_put (run_investigator u c t true)
    unfolding run_investigator
    investigator-then_put c t = then_put->> (wait_for c.model.has_published_model) _ _ (
        then_put-bind
          (call_inference u c.model.inference_task c.model.model_kwargs t assertion_error)
          (model_answer c t true) (model_answer c t false) (model-then_put c t))

    selected-then_put :
        (c : Live Kw) (t : TypedData V) (kw : Option Kw) (i : Option (Investigator Kw))
        → run_selected u c t false kw i ≡ then_put (run_selected u c t true kw i)
    unfolding run_selected
    selected-then_put c t kw none = then_put-none
    selected-then_put c t kw (some i) =
        let tell = λ (o : Option (TypedData V)).
          perform (answer_fires (i.subscriptions on_filtered_output) o) in
        then_put->> (perform (fires (i.subscriptions on_filtered_input) t)) _ _ (
          then_put->> (wait_for i.has_published_model) _ _ (
            then_put-bind
              (call_inference u i.inference_task
                (elim kw [ none ↦ i.model_kwargs | some k ↦ some k ]) t type_error)
              (λ o. (tell o >> agent_answer c t true o)) (λ o. (tell o >> agent_answer c t false o))
              (λ o. then_put->> (tell o) _ _ (agent-then_put c t o))))

    run_agent-then_put :
        (c : Live Kw) (t : TypedData V) → run_agent u c t false ≡ then_put (run_agent u c t true)
    unfolding run_agent
    run_agent-then_put c t =
        let run = λ (skip : Bool) (x : ℕ × Option Kw).
          run_selected u c t skip x.1 (lookup x.0 c.investigators) in
        then_put->> (wait_for c.has_published_selector) _ _ (
          then_put-bind (select_model u c.model_select_task t) (run true) (run false)
            (λ x. selected-then_put c t x.1 (lookup x.0 c.investigators)))

    persistent-then_put :
        (consumed : Bool) (c : Live Kw) (t : TypedData V)
        → run_persistent consumed c t ≡ then_put (run_persistent consumed c t)
    unfolding run_persistent
    persistent-then_put consumed c t =
        then_put->>
          (perform (if consumed then subscribe_output c.annotated.output_dtype ∷ [] else [])) _ _
          (then_put->> (perform (spawn_main_loop t ∷ [])) _ _ then_put-none)

    kind-then_put :
        (k : Kind) (consumed : Bool) (c : Live Kw) (t : TypedData V)
        → k ≢ split
        → run_kind k u consumed c t false ≡ then_put (run_kind k u consumed c t true)
    unfolding run_kind
    kind-then_put utility consumed c t ne =
        elim c.annotated.is_persistent
          as (λ b.
            (if b
              then run_persistent consumed c t
              else (awaited (u.main_loop c.annotated.component t) >>= utility_answer c t false))
            ≡ then_put (
                if b
                then run_persistent consumed c t
                else (awaited (u.main_loop c.annotated.component t) >>= utility_answer c t true))) [
                  | true ↦ persistent-then_put consumed c t
                  | false ↦
                      then_put-bind (awaited (u.main_loop c.annotated.component t))
                        (utility_answer c t true) (utility_answer c t false) (utility-then_put c t)
                ]
    kind-then_put split consumed c t ne = absurd (ne refl)
    kind-then_put investigator consumed c t ne = investigator-then_put c t
    kind-then_put agent consumed c t ne = run_agent-then_put c t
    kind-then_put joining consumed c t ne =
        then_put->> (perform (join_update t ∷ [])) _ _ then_put-none

    -- The runtime computes the same whether a queue feeds a component or an inference asks for it. For
    -- every component but a splitting task: the run that a queue feeds has the callbacks, waits,
    -- exceptions and the answer of the inference, and then puts that answer, if there is one, into the
    -- queue of its data type, and does nothing else.
    pub queued_run_is_inference :
        (is_start consumed : Bool) (c : Live Kw) (t : TypedData V)
        → c.annotated.component.kind ≢ split
        → run_component u is_start consumed c t false
          ≡ then_put (run_component u is_start consumed c t true)
    unfolding run_component
    queued_run_is_inference is_start consumed c t ne =
        let k = c.annotated.component.kind in
        then_put->> (wait_for is_start) _ _ (
          then_put->>
            (ensure (c.annotated.input_dtype == truthy || c.annotated.input_dtype == t.dtype)
              assertion_error)
            _ _ (then_put->> (perform (input_fires k c t)) _ _ (kind-then_put k consumed c t ne)))
