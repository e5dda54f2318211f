-- ===== src/Runtime/Api/Numbered.antt =====
-- The investigators of an agent under any calls of its API, and the runs that published models make
-- possible. src/digitaltwin/runtime.py.
use digital_twin_framework.Prelude.{
  ℕ, suc, ltb, Bool, true, false, List, [], ◌∷◌, Option, none, some, Result, ok, raise, type_error,
  Dict, lookup, insert, has, length, nat_eq, ◌≡◌, refl, arith, lookup-insert, is_some, ◌>>=◌, ap,
  assert,
}
use digital_twin_framework.Dtype.{TypedData}
use digital_twin_framework.Runtime.Act.{awaited, throw, ◌>>=◌ as and_then}
use digital_twin_framework.Runtime.Graph.{investigator, agent}
use digital_twin_framework.Runtime.Run.{
  Event, Investigator, Live, UserCode, run_investigator, model_answer, call_inference,
}
use digital_twin_framework.Runtime.Api.{
  is_agent, new_investigator, subscribe_to_topic, set_inference_task, publish_new_model,
  start_investigator, set_model_selection_task, update_model_selector, child_call, child_entry,
  own_call,
}

-- The calls that an agent and its investigators make.
pub data Call (Kw : Type 0) : Type 0 where
  starting selecting_now : Call Kw
  selecting : ℕ → Call Kw
  child_subscribing : ℕ → Event → ℕ → Call Kw
  child_inferring : ℕ → ℕ → Call Kw
  child_publishing : ℕ → Option Kw → Call Kw

module _ {Kw : Type 0} where
  abbrev kept : Live Kw → Result (Live Kw) → Live Kw
  kept c (ok c') = c'
  kept c (raise e) = c

  abbrev kept_start : Live Kw → Result (ℕ × Live Kw) → Live Kw
  kept_start c (ok (n, c')) = c'
  kept_start c (raise e) = c

  -- A call that raises changes nothing.
  unfoldable pub call : Kw → Call Kw → Live Kw → Live Kw
  unfolding start_investigator set_model_selection_task update_model_selector
  call empty starting c = kept_start c (start_investigator true empty c)
  call empty selecting_now c = kept c (update_model_selector c)
  call empty (selecting task) c = kept c (set_model_selection_task task c)
  call empty (child_subscribing n e cb) c =
      kept c (child_call n (subscribe_to_topic investigator e cb) c)
  call empty (child_inferring n task) c =
      kept c (child_call n (set_inference_task investigator task) c)
  call empty (child_publishing n kw) c = kept c (child_call n (publish_new_model investigator kw) c)

  unfoldable pub calls : Kw → List (Call Kw) → Live Kw → Live Kw
  unfolding call
  calls empty [] c = c
  calls empty (x ∷ xs) c = calls empty xs (call empty x c)

  -- The investigators are numbered from 0 on.
  abbrev pub IsNumbered : Dict ℕ (Investigator Kw) → Type 0
  IsNumbered d = (n : ℕ) → has n d ≡ ltb n (length d)

  length-insert_absent :
      (n : ℕ) (i : Investigator Kw) (d : Dict ℕ (Investigator Kw))
      → has n d ≡ false
      → length (insert n i d) ≡ suc (length d)
  unfolding lookup insert
  length-insert_absent n i [] h = refl
  length-insert_absent n i ((m, j) ∷ d) h = ground (arith, length-insert_absent n i d)

  length-insert_present :
      (n : ℕ) (i : Investigator Kw) (d : Dict ℕ (Investigator Kw))
      → has n d ≡ true
      → length (insert n i d) ≡ length d
  unfolding lookup insert
  length-insert_present n i [] h = ground arith
  length-insert_present n i ((m, j) ∷ d) h = ground (arith, length-insert_present n i d)

  insert_next-IsNumbered :
      (i : Investigator Kw) (d : Dict ℕ (Investigator Kw))
      → IsNumbered d
      → IsNumbered (insert (length d) i d)
  insert_next-IsNumbered i d h n =
      let absent : has (length d) d ≡ false = ground (arith, h (length d)) in
      ground
        (arith, length-insert_absent (length d) i d absent, lookup-insert (length d) n i d, h n)

  insert_again-IsNumbered :
      (m : ℕ) (i : Investigator Kw) (d : Dict ℕ (Investigator Kw))
      → has m d ≡ true
      → IsNumbered d
      → IsNumbered (insert m i d)
  insert_again-IsNumbered m i d p h n =
      ground (arith, length-insert_present m i d p, lookup-insert m n i d, h n, h m)

  child-IsNumbered :
      (n : ℕ) (f : Investigator Kw → Result (Investigator Kw)) (o : Option (Investigator Kw))
      (c : Live Kw)
      → lookup n c.investigators ≡ o
      → IsNumbered c.investigators
      → IsNumbered (kept c (child_entry n f o c)).investigators
  unfolding child_entry
  child-IsNumbered n f none c e h = h
  child-IsNumbered n f (some i) c e h = go (f i)
    where
      go :
          (r : Result (Investigator Kw))
          → IsNumbered
              (kept c (
                r >>= λ i'.
                ok (record c { investigators = insert n i' c.investigators }))).investigators
      go (ok i') = insert_again-IsNumbered n i' c.investigators (ap is_some e) h
      go (raise x) = h

  kept-investigators :
      (c : Live Kw) (r : Result (Live Kw))
      → ((c' : Live Kw) → r ≡ ok c' → IsNumbered c'.investigators)
      → IsNumbered c.investigators
      → IsNumbered (kept c r).investigators
  kept-investigators c (ok c') h k = h c' refl
  kept-investigators c (raise e) h k = k

  call-IsNumbered :
      (empty : Kw) (x : Call Kw) (c : Live Kw)
      → IsNumbered c.investigators
      → IsNumbered (call empty x c).investigators
  unfolding call start_investigator set_model_selection_task update_model_selector child_call
  call-IsNumbered empty starting c h =
      elim (is_agent c.annotated.component.kind)
        as (λ b.
          IsNumbered
            (kept_start c (
              assert b >>= λ _. ok (
                length c.investigators,
                record c {
                  investigators =
                      insert (length c.investigators) (new_investigator empty) c.investigators;
                },
              ))).investigators) [
                | true ↦ insert_next-IsNumbered (new_investigator empty) c.investigators h
                | false ↦ h
              ]
  call-IsNumbered empty selecting_now c h =
      elim (is_agent c.annotated.component.kind)
        as (λ b.
          IsNumbered
            (kept c
              (assert b >>= λ _. ok (record c { has_published_selector = true }))).investigators) [
                | true ↦ h
                | false ↦ h
              ]
  call-IsNumbered empty (selecting task) c h =
      elim (is_agent c.annotated.component.kind)
        as (λ b.
          IsNumbered
            (kept c
              (assert b >>= λ _. ok (record c { model_select_task = some task }))).investigators) [
                | true ↦ h
                | false ↦ h
              ]
  call-IsNumbered empty (child_subscribing n e cb) c h =
      child-IsNumbered n (subscribe_to_topic investigator e cb) (lookup n c.investigators) c refl h
  call-IsNumbered empty (child_inferring n task) c h =
      child-IsNumbered n (set_inference_task investigator task) (lookup n c.investigators) c refl h
  call-IsNumbered empty (child_publishing n kw) c h =
      child-IsNumbered n (publish_new_model investigator kw) (lookup n c.investigators) c refl h

  -- Whatever an agent and its investigators call, investigators that were numbered from 0 on stay
  -- so numbered.
  pub calls-IsNumbered :
      (empty : Kw) (xs : List (Call Kw)) (c : Live Kw)
      → IsNumbered c.investigators
      → IsNumbered (calls empty xs c).investigators
  unfolding calls
  calls-IsNumbered empty [] c h = h
  calls-IsNumbered empty (x ∷ xs) c h =
      calls-IsNumbered empty xs (call empty x c) (call-IsNumbered empty x c h)

  -- On an agent whose investigators are numbered, a started investigator gets a number that no
  -- other one has, begins with no published model, and leaves the others as they were.
  pub start_investigator-fresh :
      (empty : Kw) (c : Live Kw)
      → c.annotated.component.kind ≡ agent
      → IsNumbered c.investigators
      → (n : ℕ) × (c' : Live Kw) × (start_investigator true empty c ≡ ok (n, c'))
        × (has n c.investigators ≡ false)
        × (lookup n c'.investigators ≡ some (new_investigator empty))
        × ((m : ℕ)
            → has m c.investigators ≡ true
            → lookup m c'.investigators ≡ lookup m c.investigators)
  unfolding start_investigator
  start_investigator-fresh empty c k h =
      let n = length c.investigators in
      let i = new_investigator empty in
      (
        n,
        record c { investigators = insert n i c.investigators },
        rw k refl,
        ground (arith, h n),
        ground (arith, lookup-insert n n i c.investigators),
        λ m p. ground (arith, lookup-insert n m i c.investigators, h m),
      )

module _ {V Kw : Type 0} (u : UserCode V Kw) where
  -- Once an investigator of the graph has set an inference task and has published a model, in this
  -- order or the other, its runs no longer wait: each one calls the task with the arguments
  -- published, and fails with a `TypeError` if `None` was published.
  pub published_model_runs :
      (task : ℕ) (kw : Option Kw) (c : Live Kw) (t : TypedData V) (skip : Bool)
      → (c' : Live Kw) × ((own_call (set_inference_task investigator task) c
            >>= own_call (publish_new_model investigator kw))
          ≡ ok c')
        × ((own_call (publish_new_model investigator kw) c
              >>= own_call (set_inference_task investigator task))
            ≡ ok c')
        × (run_investigator u c' t skip ≡ elim kw [
          | none ↦ throw type_error
          | some k ↦ and_then (awaited (u.infer task t k)) (model_answer c' t skip)
        ])
  unfolding own_call set_inference_task publish_new_model run_investigator call_inference and_then
  published_model_runs task none c t skip = (
    record c {
      model = record c.model {
        model_kwargs = none;
        inference_task = some task;
        has_published_model = true;
      };
    },
    refl,
    refl,
    refl,
  )
  published_model_runs task (some k) c t skip = (
    record c {
      model = record c.model {
        model_kwargs = some k;
        inference_task = some task;
        has_published_model = true;
      };
    },
    refl,
    refl,
    refl,
  )
