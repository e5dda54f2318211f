-- ===== src/Barrier/Invariant/Steps.antt =====
-- What the end of a round finds, and that the steps of `run` and `get` keep the bookkeeping.
-- `Barrier`, src/digitaltwin/components.py.
use digital_twin_framework.Prelude.{
  ℕ, zero, suc, ◌+◌, ◌≤◌, Bool, true, List, [], ◌∷◌, Option, none, some, Dict, lookup, insert, eqb,
  if◌then◌else◌, Result, ok, raise, ◌≡◌, refl, arith, Bool-cases, inl, inr, ◌∙◌, subst, eqb_ne,
}
use digital_twin_framework.Dtype.{Dtype, TypedData}
use digital_twin_framework.Dtype.Equality.{dtype_has_eq}
use digital_twin_framework.Barrier.{
  Stream, Phase, starting, collecting, failed, Barrier, total, take_item, get_stream, get, emit,
  finished, advance, run_step,
}
use digital_twin_framework.Barrier.Invariant.Tally.{
  tally, each, each-insert, each-lookup, tally-le, each_of_tally, emit-tally, emit-each,
}
use digital_twin_framework.Barrier.Invariant.{
  is_hard, is_soft, in_step, arrived, released, Balanced, Sync, same_kind, Balanced-shift,
}

arrived-is_hard : (g : ℕ) (h : Bool) (v : ℕ) → arrived g h v ≡ true → is_hard h v ≡ true
arrived-is_hard g h v p = ground arith

released-le : {V : Type 0} (b : Barrier V) → released b ≤ b.count_soft
released-le b = ground arith

-- At the end of a round `run` has taken every permit, every hard stream has delivered, and so has
-- a soft stream if there is one.
pub all_arrived :
    {V : Type 0} (b : Barrier V)
    → Sync b
    → b.phase ≡ collecting 0
    → (b.update ≡ 0)
      × (tally is_hard b.streams ≤ tally (arrived b.global_version) b.streams)
      × (released b ≡ b.count_soft)
all_arrived b h p =
    let now : Balanced (collecting 0) b = subst (λ q. Balanced q b) p h.balanced in
    omega (
      arith,
      now.1,
      h.hard_counted,
      released-le b,
      tally-le (arrived b.global_version) is_hard (arrived-is_hard b.global_version) b.streams,
    )

-- A hard stream that delivered in the round.
abbrev pub delivered_at : ℕ → Bool → ℕ → Bool
delivered_at g h v = if h then eqb v (suc g) else true

pub all_delivered :
    {V : Type 0} (g : ℕ) (l : Dict Dtype (Stream V))
    → tally is_hard l ≤ tally (arrived g) l
    → each (delivered_at g) l ≡ true
all_delivered g l =
    each_of_tally (arrived g) is_hard (delivered_at g) (arrived-is_hard g)
      (λ h v f. ground (arith, f)) l

-- The next round starts with no arrivals, and every hard stream at its version.
next_round :
    {V : Type 0} (g : ℕ) (l : Dict Dtype (Stream V))
    → each (delivered_at g) l ≡ true
    → (tally (arrived (g + 1)) l ≡ 0) × (each (in_step (g + 1)) l ≡ true)
unfolding tally each
next_round g [] h = (refl, refl)
next_round g ((d, s) ∷ l) h = ground (arith, next_round g l)

module _ {V : Type 0} (sequence : List V → V) where
  finished-Sync :
      (b : Barrier V)
      → Sync b
      → b.phase ≡ collecting 0
      → (r : Result (Unit {0}))
      → Sync (finished sequence b ((emit sequence b.name b.streams).0, r)).1
  unfolding finished
  finished-Sync b h p (ok u) =
      let g = b.global_version in
      let there = all_delivered g b.streams (all_arrived b h p).1 in
      let (none_yet, steps') = next_round g b.streams there in
      record {
        hard_counted = emit-tally sequence b.name is_hard b.streams ∙ h.hard_counted;
        soft_counted = emit-tally sequence b.name is_soft b.streams ∙ h.soft_counted;
        steps = emit-each sequence b.name (in_step (g + 1)) b.streams ∙ steps';
        balanced = omega (
          arith,
          emit-tally sequence b.name (arrived (g + 1)) b.streams,
          none_yet,
          (all_arrived b h p).0,
        );
      }
  finished-Sync b h p (raise e) = record {
    hard_counted = emit-tally sequence b.name is_hard b.streams ∙ h.hard_counted;
    soft_counted = emit-tally sequence b.name is_soft b.streams ∙ h.soft_counted;
    steps = emit-each sequence b.name (in_step b.global_version) b.streams ∙ h.steps;
    balanced = tt;
  }

  -- A step of `run` keeps the bookkeeping, also through an exception.
  pub run_step-Sync : (b : Barrier V) → Sync b → Sync (run_step sequence b).1
  unfolding run_step
  run_step-Sync b h = go b.phase refl
    where
      go : (p : Phase) → b.phase ≡ p → Sync (advance sequence p b).1
      go starting e = elim (Bool-cases (eqb (total b) 0)) [
        | inl q ↦ rw (q, advance) h
        | inr q ↦
            rw (q, advance)
              (record {
                hard_counted = h.hard_counted;
                soft_counted = h.soft_counted;
                steps = h.steps;
                balanced =
                    let now : Balanced (starting) b = subst (λ q. Balanced q b) e h.balanced in
                    omega (arith, now);
              })
      ]
      go (collecting zero) e = finished-Sync b h e (emit sequence b.name b.streams).1
      go (collecting (suc n)) e = elim (Bool-cases (eqb b.update 0)) [
        | inl q ↦ rw (q, advance) h
        | inr q ↦
            rw (q, advance)
              (record {
                hard_counted = h.hard_counted;
                soft_counted = h.soft_counted;
                steps = h.steps;
                balanced =
                    let now : Balanced (collecting (suc n)) b =
                      subst (λ q. Balanced q b) e h.balanced in
                    omega (arith, now, eqb_ne b.update 0 q);
              })
      ]
      go (failed x) e = h

module _ {V : Type 0} where
  take_item-Sync :
      (d : Dtype) (s : Stream V) (wait : Bool) (b : Barrier V) (l : List (TypedData V))
      → lookup d b.streams ≡ some s
      → Sync b
      → Sync (take_item d s wait b l).2
  unfolding take_item
  take_item-Sync d s wait b [] e h = h
  take_item-Sync d s wait b (t ∷ ts) e h =
      let s' : Stream V = record s { queue = ts } in
      record {
        hard_counted = same_kind b d s s' is_hard e refl ∙ h.hard_counted;
        soft_counted = same_kind b d s s' is_soft e refl ∙ h.soft_counted;
        steps =
            each-insert (in_step b.global_version) d s' b.streams h.steps
              (each-lookup (in_step b.global_version) d b.streams s h.steps e);
        balanced =
            Balanced-shift b.phase b (record b { streams = insert d s' b.streams }) refl
              (omega (arith, same_kind b d s s' (arrived b.global_version) e refl)) h.balanced;
      }

  -- So does a `get`.
  pub get-Sync : (d : Dtype) (wait : Bool) (b : Barrier V) → Sync b → Sync (get d wait b).2
  unfolding get
  get-Sync d wait b h = go (lookup d b.streams) refl
    where
      go : (o : Option (Stream V)) → lookup d b.streams ≡ o → Sync (get_stream d wait b o).2
      go none e = h
      go (some s) e = take_item-Sync d s wait b s.queue e h
