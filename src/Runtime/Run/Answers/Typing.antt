-- ===== src/Runtime/Run/Answers/Typing.antt =====
-- The data types of what runs send and answer, and inference past the queues.
-- `_run_component` and `get_inference`, src/digitaltwin/runtime.py.
use digital_twin_framework.Prelude.{
  Bool, true, false, not, ◌&&◌, List, [], ◌∷◌, Option, none, if◌then◌else◌, ◌==◌, ◌≡◌, ◌≢◌, refl,
  subst, sym, All, inl, inr, ◌⊎◌, contains, false≢true, nat_eq,
}
use digital_twin_framework.Dtype.{Dtype, TypedData}
use digital_twin_framework.Dtype.Equality.{dtype_has_eq}
use digital_twin_framework.Runtime.Graph.{Kind, utility, split, investigator, agent, joining}
use digital_twin_framework.Runtime.Act.{Act, ◌>>=◌, pure}
use digital_twin_framework.Runtime.Run.{
  Live, UserCode, run_kind, run_component, or_null, get_inference,
}
use digital_twin_framework.Runtime.Run.Emits.{Emits, >>=-Emits, Optionally, pure-Emits}
use digital_twin_framework.Runtime.Run.Answers.{
  Fits, investigator-Emits, agent-Emits, utility-Emits, split-Emits, joining-Emits,
  run_component-Emits,
}

module _ {V Kw : Type 0} (u : UserCode V Kw) where
  -- A utility task or an investigator puts into the queues, and answers, only data of its declared
  -- output data type: whatever its code computes, whichever checks fail and whether or not the
  -- run finishes.
  pub outputs_are_typed :
      (c : Live Kw) (is_start consumed skip : Bool) (t : TypedData V)
      → (c.annotated.component.kind ≡ utility) ⊎ (c.annotated.component.kind ≡ investigator)
      → Emits
          (λ a. a.dtype ≡ c.annotated.output_dtype)
          (Optionally (λ a. a.dtype ≡ c.annotated.output_dtype))
          (run_component u is_start consumed c t skip)
  unfolding run_kind Fits
  outputs_are_typed c is_start consumed skip t (inl e) =
      let R = λ (a : TypedData V). a.dtype ≡ c.annotated.output_dtype in
      run_component-Emits R R u c skip t is_start consumed (
        subst (λ k. Emits R (Optionally R) (run_kind k u consumed c t skip)) (sym e)
          (utility-Emits R R u c skip t consumed (λ a h. ((λ s. h), h))))
  outputs_are_typed c is_start consumed skip t (inr e) =
      let R = λ (a : TypedData V). a.dtype ≡ c.annotated.output_dtype in
      run_component-Emits R R u c skip t is_start consumed (
        subst (λ k. Emits R (Optionally R) (run_kind k u consumed c t skip)) (sym e)
          (investigator-Emits R R u c skip t (λ a h. ((λ s. h), h))))

  -- A splitting task puts into the queues only data of the data types that were declared for it,
  -- and answers nothing.
  pub split_sends_declared :
      (c : Live Kw) (is_start consumed skip : Bool) (t : TypedData V)
      → c.annotated.component.kind ≡ split
      → Emits
          (λ a. contains c.annotated.split_outputs a.dtype ≡ true)
          (Optionally (λ a. ⊥))
          (run_component u is_start consumed c t skip)
  split_sends_declared c is_start consumed skip t e =
      let R = λ (a : TypedData V). contains c.annotated.split_outputs a.dtype ≡ true in
      run_component-Emits R (λ a. ⊥) u c skip t is_start consumed
        (subst (λ k. Emits R (Optionally (λ (a : TypedData V). ⊥)) (run_kind k u consumed c t skip))
          (sym e) (split-Emits R (λ a. ⊥) u c skip t consumed (λ a h. h)))

  unsent :
      (c : Live Kw) (a : TypedData V)
      → a.dtype ≡ c.annotated.output_dtype
      → (true ≡ false → ⊥) × Unit {0}
  unsent c a e = ((λ s. false≢true (sym s)), tt)

  -- No component but a splitting task puts anything into the queues when that is to be skipped.
  skipped-Emits :
      (c : Live Kw) (consumed : Bool) (t : TypedData V) (k : Kind)
      → k ≢ split
      → Emits (λ a. ⊥) (Optionally (λ a. Unit)) (run_kind k u consumed c t true)
  unfolding run_kind Fits
  skipped-Emits c consumed t utility ne =
      utility-Emits (λ a. ⊥) (λ a. Unit) u c true t consumed (unsent c)
  skipped-Emits c consumed t split ne = absurd (ne refl)
  skipped-Emits c consumed t investigator ne =
      investigator-Emits (λ a. ⊥) (λ a. Unit) u c true t (unsent c)
  skipped-Emits c consumed t agent ne =
      agent-Emits (λ a. ⊥) (λ a. Unit) u c true t (λ a. ((λ s. absurd (false≢true (sym s))), tt))
  skipped-Emits c consumed t joining ne = joining-Emits (λ a. ⊥) (λ a. Unit) u c true t consumed

  or_null-Emits :
      (null_value : V) (m : Act V (Option (TypedData V)))
      → Emits (λ a. ⊥) (Optionally (λ a. Unit)) m
      → Emits (λ a. ⊥) (λ a. Unit) (m >>= λ a. pure (or_null null_value a))
  or_null-Emits null_value m h =
      >>=-Emits (λ a. ⊥) (Optionally (λ a. Unit)) (λ a. Unit) m _ h
        (λ a q. pure-Emits (λ a. ⊥) (λ a. Unit) (or_null null_value a) tt)

  -- Inference through the graph bypasses the queues: with no splitting task among the components
  -- for the input's data type, nothing is put into a queue, whichever component serves the request
  -- and whatever it computes.
  pub inference_bypasses_queues :
      (null_value : V) (is_start : Bool) (cs : List (Live Kw)) (t : TypedData V) (req : Dtype)
      → All (λ c. c.annotated.component.kind ≢ split) cs
      → Emits (λ a. ⊥) (λ a. Unit) (get_inference null_value u is_start cs t req)
  unfolding get_inference
  inference_bypasses_queues null_value is_start [] t req h =
      pure-Emits (λ a. ⊥) (λ a. Unit) (or_null null_value none) tt
  inference_bypasses_queues null_value is_start (c ∷ cs) t req h =
      elim (c.annotated.output_dtype == req && not c.annotated.is_persistent)
        as (λ b.
          Emits (λ a. ⊥) (λ a. Unit)
            (if b
              then (run_component u is_start false c t true >>= λ a. pure (or_null null_value a))
              else get_inference null_value u is_start cs t req)) [
                | true ↦ or_null-Emits null_value _ (
                    run_component-Emits (λ a. ⊥) (λ a. Unit) u c true t is_start false
                      (skipped-Emits c false t c.annotated.component.kind h.0))
                | false ↦ inference_bypasses_queues null_value is_start cs t req h.1
              ]
