-- ===== src/Tests/Barriers.antt =====
-- A barrier with a hard and a soft stream, through one round.
use digital_twin_framework.Prelude.{
  ℕ, codes, true, false, List, [], ◌∷◌, none, some, Error, ◌<◌, lookup, list_beq, ◌≡◌, refl, insert,
}
use digital_twin_framework.Dtype.{Dtype, plain, TypedData, dtype_eq}
use digital_twin_framework.Dtype.Equality.{dtype_has_eq}
use digital_twin_framework.Barrier.{
  Barrier, collecting, failed, new_barrier, add_dtype, put, run_step,
}
use digital_twin_framework.Barrier.Invariant.{Sync}
use digital_twin_framework.Barrier.Invariant.Steps.{delivered_at}
use digital_twin_framework.Barrier.Invariant.Tally.{each}
use digital_twin_framework.Barrier.Rounds.{
  IsFresh, new_barrier-IsFresh, add_dtype-IsFresh, putting, running, Reach, here, next, Reach-Sync,
  round_complete, round_ends, run_steps,
}
use digital_twin_framework.Barrier.Rounds.Starving.{starved_soft_fails, any_unfed}

abbrev hot : Dtype
hot = plain (codes "hot")

abbrev wet : Dtype
wet = plain (codes "wet")

abbrev dry : Dtype
dry = plain (codes "dry")

abbrev sum_up : List ℕ → ℕ
sum_up [] = 0
sum_up (x ∷ xs) = x

abbrev reading : Dtype → TypedData ℕ
reading d = record { dtype = d; content = 4 }

abbrev empty_barrier : Barrier ℕ
empty_barrier = new_barrier (codes "b") true

abbrev one : Barrier ℕ
one = (add_dtype hot none empty_barrier).1

abbrev two : Barrier ℕ
two = (add_dtype wet (some false) one).1

-- A second soft stream.
abbrev three : Barrier ℕ
three = (add_dtype dry (some false) two).1

two-IsFresh : IsFresh two
unfolding new_barrier add_dtype lookup insert list_beq dtype_eq
two-IsFresh =
    add_dtype-IsFresh wet (some false) one refl
      (add_dtype-IsFresh hot none empty_barrier refl (new_barrier-IsFresh (codes "b") true))

three-IsFresh : IsFresh three
unfolding new_barrier add_dtype lookup insert list_beq dtype_eq
three-IsFresh = add_dtype-IsFresh dry (some false) two refl two-IsFresh

-- Both streams deliver, and the main loop begins a round.
abbrev fed : Barrier ℕ → Barrier ℕ
fed b = (run_step sum_up (put (reading wet) (put (reading hot) b).1).1).1

fed-Reach : (b : Barrier ℕ) → Reach sum_up b (fed b)
fed-Reach b = next (next (next here (putting (reading hot))) (putting (reading wet))) running

Reach-Sync_example : Sync (fed two)
Reach-Sync_example = Reach-Sync sum_up two-IsFresh (fed-Reach two)

-- The main loop takes the two permits.
abbrev taken : Barrier ℕ
taken = (run_step sum_up (run_step sum_up (fed two)).1).1

taken-phase : taken.phase ≡ collecting 0
unfolding new_barrier add_dtype put run_step lookup insert list_beq dtype_eq
taken-phase = refl

round_complete_example :
    (each (delivered_at taken.global_version) taken.streams ≡ true)
    × (0 < taken.count_soft → taken.set_soft ≡ true)
    × (taken.update ≡ 0)
round_complete_example =
    round_complete sum_up two-IsFresh (next (next (fed-Reach two) running) running) taken-phase

fed-phase : (fed two).phase ≡ collecting 2
unfolding new_barrier add_dtype put run_step lookup insert list_beq dtype_eq
fed-phase = refl

fed-delivered : each (delivered_at (fed two).global_version) (fed two).streams ≡ true
unfolding new_barrier add_dtype put run_step lookup insert list_beq dtype_eq each
fed-delivered = refl

fed-soft : 0 < (fed two).count_soft → (fed two).set_soft ≡ true
unfolding new_barrier add_dtype put run_step lookup insert list_beq dtype_eq
fed-soft h = refl

round_ends_example : (run_steps sum_up 2 (fed two)).phase ≡ collecting 0
round_ends_example =
    round_ends sum_up 2 (fed two) (Reach-Sync sum_up two-IsFresh (fed-Reach two)) fed-phase
      fed-delivered fed-soft

-- With a third, soft stream that gets nothing, the loop gets its permits and then fails.
starved-phase : (fed three).phase ≡ collecting 3
unfolding new_barrier add_dtype put run_step lookup insert list_beq dtype_eq
starved-phase = refl

starved-delivered : each (delivered_at (fed three).global_version) (fed three).streams ≡ true
unfolding new_barrier add_dtype put run_step lookup insert list_beq dtype_eq each
starved-delivered = refl

starved-soft : (fed three).set_soft ≡ true
unfolding new_barrier add_dtype put run_step lookup insert list_beq dtype_eq
starved-soft = refl

starved-unfed : any_unfed (fed three).streams ≡ true
unfolding new_barrier add_dtype put run_step lookup insert list_beq dtype_eq any_unfed
starved-unfed = refl

starved_soft_fails_example :
    (x : Error) × ((run_step sum_up (run_steps sum_up 3 (fed three))).1.phase ≡ failed x)
starved_soft_fails_example =
    starved_soft_fails sum_up 3 (fed three) (Reach-Sync sum_up three-IsFresh (fed-Reach three))
      starved-phase starved-delivered starved-soft starved-unfed
