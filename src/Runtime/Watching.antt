-- ===== src/Runtime/Watching.antt =====
-- A runtime and the stream client that it was given: `DTRuntime.__init__` hooks `_record_error` to
-- `on_error`, `_report_error` calls it, and `_teardown` closes the client.
-- src/digitaltwin/runtime.py and src/digitaltwin/streaming.py.
pub mod Reported
use digital_twin_framework.Prelude.{
  Text, Bool, true, false, List, [], ◌∷◌, Option, none, some, Error, Eq, if◌then◌else◌,
}
use digital_twin_framework.Runtime.Lifecycle
use digital_twin_framework.Runtime.Lifecycle.{
  Life, Teardown, scheduled, cancelled, closed, Outcome, new_life, record_error, teardown_cancel,
  teardown_close, task_done, spawn,
}
use digital_twin_framework.Stream.Backend
use digital_twin_framework.Stream.Backend.{Backend, run_done}

-- `has_hook` says whether `on_error` is set.
pub record Hosted (J C P : Type 0) : Type 0 where
  pub life : Life J
  pub backend : Backend C P
  pub has_hook : Bool

-- What happens to a runtime and to its receive loop, in any order.
pub data Event (J : Type 0) : Type 0 where
  starting stopping cancelling : Event J
  spawning : J → Event J
  ending : J → Outcome → Event J
  closing : Option Text → Event J
  loop_ending : Bool → Option Error → Event J

-- `f"{type(exc).__name__}: {exc}"` is a parameter.
module _ {J C P : Type 0} (error_text : Error → Text) where
  unfoldable pub new_runtime : Backend C P → Hosted J C P
  unfolding new_life
  new_runtime b = record { life = new_life; backend = b; has_hook = true }

  -- `_report_error`
  unfoldable pub report_error : Error → Hosted J C P → Hosted J C P
  report_error exc h =
      if h.has_hook then record h { life = record_error (error_text exc) h.life } else h

  reported : Option Error → Hosted J C P → Hosted J C P
  unfolding report_error
  reported none h = h
  reported (some exc) h = report_error exc h

  -- The receive loop ends, by a cancellation or by an exception, if it has one.
  unfoldable pub loop_ends : Bool → Option Error → Hosted J C P → Hosted J C P
  unfolding reported run_done
  loop_ends was_cancelled exc h = reported (run_done was_cancelled exc h.backend) h

  -- `_teardown` goes on only from where it stands.
  cancel_at : Option Teardown → Hosted J C P → Hosted J C P
  cancel_at (some scheduled) h = record h { life = teardown_cancel h.life }
  cancel_at _ h = h

  -- It closes the stream client, and records what that raises.
  close_at : Option Teardown → Option Text → Hosted J C P → Hosted J C P
  close_at (some cancelled) error h = record h {
    backend = Backend.close h.backend;
    life = teardown_close error h.life;
  }
  close_at _ error h = h

  module _ ⦃e : Eq J⦄ where
    unfoldable pub step : Event J → Hosted J C P → Hosted J C P
    unfolding cancel_at close_at loop_ends
    step starting h = record h { life = (Lifecycle.start h.life).1 }
    step stopping h = record h { life = Lifecycle.stop h.life }
    step cancelling h = cancel_at h.life.stop_task h
    step (spawning j) h = record h { life = spawn j h.life }
    step (ending j out) h = record h { life = task_done j out h.life }
    step (closing error) h = close_at h.life.stop_task error h
    step (loop_ending was_cancelled exc) h = loop_ends was_cancelled exc h

    unfoldable pub steps : List (Event J) → Hosted J C P → Hosted J C P
    unfolding step
    steps [] h = h
    steps (x ∷ xs) h = steps xs (step x h)
