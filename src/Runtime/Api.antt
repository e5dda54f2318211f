-- ===== src/Runtime/Api.antt =====
-- What a component sees of its runtime: `RuntimeAPI` of src/digitaltwin/runtime.py, but for the
-- shared subtasks. Callbacks and tasks are named by numbers.
pub mod Numbered
use digital_twin_framework.Prelude.{
  ℕ, Bool, true, false, not, List, [], ◌∷◌, ◌++◌, Option, none, some, Result, ok, raise,
  assertion_error, value_error, key_error, if◌then◌else◌, Dict, lookup, insert, length, nat_eq,
  get_or_else, ◌>>=◌, ◌>>◌, assert, raise_if,
}
use digital_twin_framework.Runtime.Graph.{
  Kind, utility, split, investigator, agent, joining, is_model,
}
use digital_twin_framework.Runtime.Run.{
  Event, on_input, on_output, on_model_publish, on_filtered_input, on_filtered_output, Investigator,
  Live,
}

abbrev pub is_investigator : Kind → Bool
is_investigator investigator = true
is_investigator _ = false

abbrev pub is_agent : Kind → Bool
is_agent agent = true
is_agent _ = false

abbrev pub same_event : Event → Event → Bool
same_event on_input on_input = true
same_event on_output on_output = true
same_event on_model_publish on_model_publish = true
same_event on_filtered_input on_filtered_input = true
same_event on_filtered_output on_filtered_output = true
same_event _ _ = false

module _ {Kw : Type 0} where
  -- The fields of a new `_AnnotatedComponent`; `empty` is `{}`.
  unfoldable pub new_investigator : Kw → Investigator Kw
  new_investigator empty = record {
    subscriptions = λ e. [];
    model_kwargs = some empty;
    inference_task = none;
    has_published_model = false;
  }

  -- The calls of an investigator's API on its own entry. The class of the component is `cmp_type`.
  unfoldable pub subscribe_to_topic : Kind → Event → ℕ → Investigator Kw → Result (Investigator Kw)
  subscribe_to_topic k e cb i = do
    assert (is_model k)
    ok (record i {
      subscriptions =
          λ x. if same_event x e then i.subscriptions x ++ (cb ∷ []) else i.subscriptions x;
    })

  unfoldable pub set_inference_task : Kind → ℕ → Investigator Kw → Result (Investigator Kw)
  set_inference_task k task i = do
    assert (is_investigator k)
    ok (record i { inference_task = some task })

  -- What is stored is what was passed, also if that is `None`.
  unfoldable pub publish_new_model : Kind → Option Kw → Investigator Kw → Result (Investigator Kw)
  publish_new_model k kwargs i = do
    assert (is_investigator k)
    ok (record i { model_kwargs = kwargs; has_published_model = true })

  -- The arguments of the agent's `model_publish_cb`, which get `{}` for `None`.
  unfoldable pub published_kwargs : Kw → Option Kw → Kw
  published_kwargs empty kwargs = get_or_else kwargs empty

  -- The calls of an agent's API. `inside` says whether `_internal_add_investigator` was set.
  unfoldable pub start_investigator : Bool → Kw → Live Kw → Result (ℕ × Live Kw)
  unfolding new_investigator
  start_investigator inside empty c = do
    assert (is_agent c.annotated.component.kind)
    raise_if (not inside) value_error
    let count = length c.investigators
    ok (count, record c { investigators = insert count (new_investigator empty) c.investigators })

  unfoldable pub set_model_selection_task : ℕ → Live Kw → Result (Live Kw)
  set_model_selection_task task c = do
    assert (is_agent c.annotated.component.kind)
    ok (record c { model_select_task = some task })

  unfoldable pub update_model_selector : Live Kw → Result (Live Kw)
  update_model_selector c = do
    assert (is_agent c.annotated.component.kind)
    ok (record c { has_published_selector = true })

  -- A call of an agent's investigator on its own entry, which the agent holds.
  child_entry :
      ℕ
      → (Investigator Kw → Result (Investigator Kw))
      → Option (Investigator Kw)
      → Live Kw
      → Result (Live Kw)
  child_entry n f none c = raise key_error
  child_entry n f (some i) c = do
    i' ← f i
    ok (record c { investigators = insert n i' c.investigators })

  unfoldable pub child_call :
      ℕ → (Investigator Kw → Result (Investigator Kw)) → Live Kw → Result (Live Kw)
  unfolding child_entry
  child_call n f c = child_entry n f (lookup n c.investigators) c

  -- A call of an investigator of the graph.
  unfoldable pub own_call :
      (Investigator Kw → Result (Investigator Kw)) → Live Kw → Result (Live Kw)
  own_call f c = do i ← f c.model; ok (record c { model = i })
