-- ===== src/Runtime/Watching/Reported.antt =====
-- A stream that stalls fails its twin. src/digitaltwin/runtime.py and src/digitaltwin/streaming.py.
use digital_twin_framework.Prelude.{
  Text, Bool, true, false, List, [], ◌∷◌, Option, none, some, Error, Eq, is_some, if◌then◌else◌,
  ◌≡◌, ◌⊎◌, inl, inr, refl, arith, ap, sym, subst, ◌∙◌, Bool-cases,
}
use digital_twin_framework.Runtime.Lifecycle
use digital_twin_framework.Runtime.Lifecycle.{
  Life, State, Teardown, scheduled, cancelled, closed, Outcome, returned, was_cancelled,
  raised_error, new_life, record_error, teardown_cancel, teardown_close, task_done, spawn,
  is_terminal,
}
use digital_twin_framework.Runtime.Lifecycle.Terminal.{
  Step, starting, stopping, spawning, ending, reporting, cancelling, closing, IsSound, Step-IsSound,
  new_life-IsSound,
}
use digital_twin_framework.Stream.Backend
use digital_twin_framework.Stream.Backend.{Backend, run_done}
use digital_twin_framework.Runtime.Watching
use digital_twin_framework.Runtime.Watching.{
  Hosted, Event, new_runtime, report_error, reported, loop_ends, cancel_at, close_at, step, steps,
}

abbrev is_closed : Option Teardown → Bool
is_closed (some closed) = true
is_closed _ = false

is_closed-eq : (o : Option Teardown) → is_closed o ≡ true → o ≡ some closed
is_closed-eq o h = ground arith

closed_backend : {C P : Type 0} (b : Backend C P) → (Backend.close b).closed ≡ true
unfolding Backend.close
closed_backend b = ground arith

module _ {J : Type 0} where
  closed_life :
      (error : Option Text) (l : Life J) → is_closed (teardown_close error l).stop_task ≡ true
  unfolding teardown_close record_error
  closed_life none l = refl
  closed_life (some x) l = ground arith

  -- An error that is recorded on a sound life leaves it terminal, with an error.
  recorded :
      (x : Text) (l : Life J)
      → IsSound l
      → (is_terminal (record_error x l).state ≡ true)
        × (is_some (record_error x l).last_error ≡ true)
  unfolding record_error
  recorded x l h = ground (arith, h.has_error)

module _ {J : Type 0} ⦃e : Eq J⦄ where
  start-closed : (l : Life J) → is_closed (Lifecycle.start l).1.stop_task ≡ is_closed l.stop_task
  unfolding Lifecycle.start
  start-closed l = ground arith

  stop-closed : (l : Life J) → is_closed (Lifecycle.stop l).stop_task ≡ is_closed l.stop_task
  unfolding Lifecycle.stop
  stop-closed l = ground arith

  spawn-closed : (j : J) (l : Life J) → is_closed (spawn j l).stop_task ≡ is_closed l.stop_task
  unfolding spawn
  spawn-closed j l = ground arith

  error-closed :
      (x : Text) (l : Life J) → is_closed (record_error x l).stop_task ≡ is_closed l.stop_task
  unfolding record_error
  error-closed x l = ground arith

  done-closed :
      (j : J) (out : Outcome) (l : Life J)
      → is_closed (task_done j out l).stop_task ≡ is_closed l.stop_task
  unfolding task_done record_error
  done-closed j returned l = ground arith
  done-closed j was_cancelled l = ground arith
  done-closed j (raised_error x) l = ground arith

module _ {J C P : Type 0} ⦃e : Eq J⦄ (error_text : Error → Text) where
  -- The hook is set, the stream is closed exactly if the teardown has closed it, and the life is sound.
  pub record IsWatched (h : Hosted J C P) : Type 0 where
    pub hooked : h.has_hook ≡ true
    pub in_step : h.backend.closed ≡ is_closed h.life.stop_task
    pub sound : IsSound h.life

  with_life :
      (h : Hosted J C P) (l : Life J)
      → IsWatched h
      → Step h.life l
      → is_closed l.stop_task ≡ is_closed h.life.stop_task
      → IsWatched (record h { life = l })
  with_life h l w st k = record {
    hooked = w.hooked;
    in_step = w.in_step ∙ sym k;
    sound = Step-IsSound st w.sound;
  }

  cancel_at-IsWatched :
      (o : Option Teardown) (h : Hosted J C P)
      → h.life.stop_task ≡ o
      → IsWatched h
      → IsWatched (cancel_at error_text o h)
  unfolding cancel_at teardown_cancel
  cancel_at-IsWatched none h k w = w
  cancel_at-IsWatched (some scheduled) h k w =
      with_life h (teardown_cancel h.life) w (cancelling k) (ap is_closed (sym k))
  cancel_at-IsWatched (some cancelled) h k w = w
  cancel_at-IsWatched (some closed) h k w = w

  close_at-IsWatched :
      (o : Option Teardown) (error : Option Text) (h : Hosted J C P)
      → h.life.stop_task ≡ o
      → IsWatched h
      → IsWatched (close_at error_text o error h)
  unfolding close_at
  close_at-IsWatched none error h k w = w
  close_at-IsWatched (some scheduled) error h k w = w
  close_at-IsWatched (some cancelled) error h k w = record {
    hooked = w.hooked;
    in_step = closed_backend h.backend ∙ sym (closed_life error h.life);
    sound = Step-IsSound (closing error k) w.sound;
  }
  close_at-IsWatched (some closed) error h k w = w

  reported-IsWatched :
      (exc : Option Error) (h : Hosted J C P) → IsWatched h → IsWatched (reported error_text exc h)
  unfolding reported report_error
  reported-IsWatched none h w = w
  reported-IsWatched (some exc) h w =
      let l = record_error (error_text exc) h.life in
      subst (λ b. IsWatched (if b then record h { life = l } else h)) (sym w.hooked)
        (with_life h l w (reporting (error_text exc)) (error-closed (error_text exc) h.life))

  step-IsWatched : (x : Event J) (h : Hosted J C P) → IsWatched h → IsWatched (step error_text x h)
  unfolding step loop_ends
  step-IsWatched Watching.starting h w = with_life h _ w starting (start-closed h.life)
  step-IsWatched Watching.stopping h w = with_life h _ w stopping (stop-closed h.life)
  step-IsWatched Watching.cancelling h w = cancel_at-IsWatched h.life.stop_task h refl w
  step-IsWatched (Watching.spawning j) h w = with_life h _ w (spawning j) (spawn-closed j h.life)
  step-IsWatched (Watching.ending j out) h w =
      with_life h _ w (ending j out) (done-closed j out h.life)
  step-IsWatched (Watching.closing error) h w = close_at-IsWatched h.life.stop_task error h refl w
  step-IsWatched (Watching.loop_ending c exc) h w =
      reported-IsWatched (run_done c exc h.backend) h w

  steps-IsWatched :
      (xs : List (Event J)) (h : Hosted J C P) → IsWatched h → IsWatched (steps error_text xs h)
  unfolding steps
  steps-IsWatched [] h w = w
  steps-IsWatched (x ∷ xs) h w = steps-IsWatched xs (step error_text x h) (step-IsWatched x h w)

  new_runtime-IsWatched :
      (b : Backend C P) → b.closed ≡ false → IsWatched (new_runtime error_text b)
  unfolding new_runtime new_life
  new_runtime-IsWatched b k = record { hooked = refl; in_step = k; sound = new_life-IsSound }

  exit_of :
      (exc : Option Error) (h : Hosted J C P)
      → IsWatched h
      → let h' = loop_ends error_text false exc h in
        ((h.life.stop_task ≡ some closed) × (h' ≡ h))
        ⊎ ((is_terminal h'.life.state ≡ true) × (is_some h'.life.last_error ≡ true))
  unfolding loop_ends run_done reported report_error
  exit_of exc h w = elim (Bool-cases h.backend.closed) [
    | inl k ↦ inl (is_closed-eq h.life.stop_task (sym w.in_step ∙ k), rw k refl)
    | inr k ↦ inr (rw (k, w.hooked) (recorded _ h.life w.sound))
  ]

  -- A stream never stalls silently. A runtime gets an open stream client; whatever has happened to it
  -- since, when the receive loop ends other than by a cancellation, then either the teardown has
  -- closed the client already and nothing changes, or the twin is stopped or failed afterwards and
  -- has an error to report.
  pub stalled_stream_reported :
      (xs : List (Event J)) (b : Backend C P) (exc : Option Error)
      → b.closed ≡ false
      → let h = steps error_text xs (new_runtime error_text b) in
        let h' = loop_ends error_text false exc h in
        ((h.life.stop_task ≡ some closed) × (h' ≡ h))
        ⊎ ((is_terminal h'.life.state ≡ true) × (is_some h'.life.last_error ≡ true))
  stalled_stream_reported xs b exc k =
      exit_of exc _ (steps-IsWatched xs (new_runtime error_text b) (new_runtime-IsWatched b k))
