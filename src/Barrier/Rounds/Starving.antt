-- ===== src/Barrier/Rounds/Starving.antt =====
-- Rounds that end before a soft stream has had a value. `Barrier`, src/digitaltwin/components.py.
use digital_twin_framework.Prelude.{
  ℕ, zero, suc, ◌-◌, ◌<◌, Text, Bool, true, false, not, ◌&&◌, ◌||◌, List, [], ◌∷◌, Error, Dict,
  Result, ok, raise, is_ok, ◌≡◌, refl, arith, subst, sym, is_some,
}
use digital_twin_framework.Dtype.{Dtype}
use digital_twin_framework.Dtype.Equality.{dtype_has_eq}
use digital_twin_framework.Barrier.{
  Stream, collecting, failed, Barrier, emit, emit_one, finished, advance, run_step, last,
}
use digital_twin_framework.Barrier.Invariant.{Sync}
use digital_twin_framework.Barrier.Invariant.Steps.{delivered_at, run_step-Sync}
use digital_twin_framework.Barrier.Invariant.Tally.{each}
use digital_twin_framework.Barrier.Rounds.{run_steps, take_permit, permit_left, round_ends}

module _ {V : Type 0} where
  abbrev pub is_nil : List V → Bool
  is_nil [] = true
  is_nil (x ∷ l) = false

  -- A soft stream that has had no value yet.
  abbrev pub is_unfed : Stream V → Bool
  is_unfed s = not s.hard && is_nil s.previous

  unfoldable pub any_unfed : Dict Dtype (Stream V) → Bool
  any_unfed [] = false
  any_unfed ((d, s) ∷ l) = is_unfed s || any_unfed l

  is_some-last : (l : List V) → is_some (last l) ≡ not (is_nil l)
  unfolding last
  is_some-last [] = refl
  is_some-last (x ∷ []) = refl
  is_some-last (x ∷ y ∷ l) = is_some-last (y ∷ l)

module _ {V : Type 0} (sequence : List V → V) where
  emit_one_raises :
      (name : Text) (d : Dtype) (s : Stream V)
      → is_ok (emit_one sequence name d s).1 ≡ not (is_unfed s)
  unfolding emit_one
  emit_one_raises name d s = ground (arith, is_some-last s.previous)

  -- The end of a round raises exactly if some soft stream never had a value, whatever the others
  -- delivered.
  pub emit_raises :
      (name : Text) (l : Dict Dtype (Stream V)) → is_ok (emit sequence name l).1 ≡ not (any_unfed l)
  unfolding emit any_unfed
  emit_raises name [] = refl
  emit_raises name ((d, s) ∷ l) = ground (arith, emit_raises name l, emit_one_raises name d s)

  run_steps-streams :
      (n : ℕ) (b : Barrier V)
      → Sync b
      → b.phase ≡ collecting n
      → each (delivered_at b.global_version) b.streams ≡ true
      → (0 < b.count_soft → b.set_soft ≡ true)
      → (run_steps sequence n b).streams ≡ b.streams
  unfolding run_steps
  run_steps-streams zero b h e d s = refl
  run_steps-streams (suc n) b h e d s =
      let step = take_permit sequence b n e (permit_left sequence b n h e d s) in
      subst (λ (x : Barrier V). (run_steps sequence n x).streams ≡ b.streams) (sym step)
        (run_steps-streams n (record b { update = b.update - 1; phase = collecting n })
          (subst Sync step (run_step-Sync sequence b h)) refl d s)

  finished_fails :
      (b : Barrier V) (r : Dict Dtype (Stream V) × Result (Unit {0}))
      → is_ok r.1 ≡ false
      → (x : Error) × ((finished sequence b r).1.phase ≡ failed x)
  unfolding finished
  finished_fails b (l, ok u) h = cc
  finished_fails b (l, raise x) h = (x, refl)

  last_step_fails :
      (b : Barrier V)
      → b.phase ≡ collecting 0
      → any_unfed b.streams ≡ true
      → (x : Error) × ((run_step sequence b).1.phase ≡ failed x)
  unfolding run_step
  last_step_fails b e u =
      subst (λ q. (x : Error) × ((advance sequence q b).1.phase ≡ failed x)) (sym e)
        (finished_fails b (emit sequence b.name b.streams) (rw (emit_raises b.name b.streams, u)))

  -- A value on one soft stream releases the round for all of them: if the bookkeeping is in step, the
  -- loop still wants `n` permits, the hard streams have delivered and one soft stream has, while
  -- another never had a value, then the main loop ends the round and dies of an exception.
  pub starved_soft_fails :
      (n : ℕ) (b : Barrier V)
      → Sync b
      → b.phase ≡ collecting n
      → each (delivered_at b.global_version) b.streams ≡ true
      → b.set_soft ≡ true
      → any_unfed b.streams ≡ true
      → (x : Error) × ((run_step sequence (run_steps sequence n b)).1.phase ≡ failed x)
  starved_soft_fails n b h e d s u =
      last_step_fails (run_steps sequence n b) (round_ends sequence n b h e d (λ p. s))
        (rw (run_steps-streams n b h e d (λ p. s)) u)
