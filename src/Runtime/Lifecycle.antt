-- ===== src/Runtime/Lifecycle.antt =====
-- The life cycle of a twin: `start`, `stop`, `_teardown`, `_to_asyncio_task`, `_task_done` and
-- `_record_error` of src/digitaltwin/runtime.py. Everything runs on one event loop, so what a
-- coroutine does between two waits is one step.
pub mod Terminal
use digital_twin_framework.Prelude.{
  Text, Bool, true, false, not, ◌||◌, ◌&&◌, List, [], ◌∷◌, ◌++◌, Option, none, some, Result, ok,
  raise, Status, done, raised, waiting, runtime_error, Error, if◌then◌else◌, is_some, Eq, discard,
}

pub data State : Type 0 where
  ready running stopped failed : State

-- How far the one teardown has come: scheduled, its tasks cancelled, the stream client closed.
pub data Teardown : Type 0 where
  scheduled cancelled closed : Teardown

-- `J` is the type of tasks. `stop_task` is the handle of the teardown. `running_tasks` holds the
-- tasks on the books, and `cancelled_tasks` those that the teardown took off and cancelled, which run
-- on if they ignore that: it abandons them after a time.
pub record Life (J : Type 0) : Type 0 where
  pub state : State
  pub last_error : Option Text
  pub stop_task : Option Teardown
  pub is_start : Bool
  pub running_tasks : List J
  pub cancelled_tasks : List J

abbrev pub is_failed : State → Bool
is_failed failed = true
is_failed _ = false

abbrev pub is_terminal : State → Bool
is_terminal stopped = true
is_terminal failed = true
is_terminal _ = false

-- How a task ended.
pub data Outcome : Type 0 where
  returned was_cancelled : Outcome
  raised_error : Text → Outcome

module _ {J : Type 0} where
  unfoldable pub new_life : Life J
  new_life = record {
    state = ready;
    last_error = none;
    stop_task = none;
    is_start = false;
    running_tasks = [];
    cancelled_tasks = [];
  }

  start_from : State → Life J → Result (Unit {0}) × Life J
  start_from stopped l = (raise runtime_error, l)
  start_from failed l = (raise runtime_error, l)
  start_from _ l = (ok tt, record l { state = running; is_start = true })

  unfoldable pub start : Life J → Result (Unit {0}) × Life J
  unfolding start_from
  start l = start_from l.state l

  -- `stop` up to its wait for the teardown, which it joins.
  stop_with : Option Teardown → Life J → Life J
  stop_with none l = record l { state = stopped; stop_task = some scheduled }
  stop_with (some t) l = l

  unfoldable pub stop : Life J → Life J
  unfolding stop_with
  stop l = stop_with l.stop_task l

  -- `stop` returns when the teardown it joins is over.
  abbrev pub stop_returns : Life J → Status
  stop_returns l = elim l.stop_task [
    | none ↦ waiting
    | some t ↦ elim t [ scheduled ↦ waiting | cancelled ↦ waiting | closed ↦ done ]
  ]

  record_error_in : State → Text → Life J → Life J
  record_error_in failed error l = l
  record_error_in stopped error l = record l { last_error = some error }
  record_error_in _ error l = record l {
    last_error = some error;
    state = failed;
    stop_task = elim l.stop_task [ none ↦ some scheduled | some t ↦ some t ];
  }

  unfoldable pub record_error : Text → Life J → Life J
  unfolding record_error_in
  record_error error l = record_error_in l.state error l

  -- `_to_asyncio_task`: a twin that is being torn down starts no new work.
  unfoldable pub spawn : J → Life J → Life J
  spawn j l =
      if is_some l.stop_task || is_failed l.state
      then l
      else record l { running_tasks = l.running_tasks ++ (j ∷ []) }

  -- `_teardown` up to its first wait: the tasks are swapped out and cancelled.
  unfoldable pub teardown_cancel : Life J → Life J
  teardown_cancel l = record l {
    stop_task = some cancelled;
    cancelled_tasks = l.cancelled_tasks ++ l.running_tasks;
    running_tasks = [];
  }

  -- `_teardown` from the close of the stream client on. A timeout is only logged; any other
  -- exception is recorded.
  unfoldable pub teardown_close : Option Text → Life J → Life J
  unfolding record_error
  teardown_close none l = record l { stop_task = some closed }
  teardown_close (some error) l = record_error error (record l { stop_task = some closed })

  -- The rest of the teardown, when `stop` has waited for it.
  await_from : Option Text → Option Teardown → Life J → Life J
  unfolding teardown_close teardown_cancel
  await_from error none l = l
  await_from error (some scheduled) l = teardown_close error (teardown_cancel l)
  await_from error (some cancelled) l = teardown_close error l
  await_from error (some closed) l = l

  unfoldable pub await_teardown : Option Text → Life J → Life J
  unfolding await_from
  await_teardown error l = await_from error l.stop_task l

module _ {J : Type 0} ⦃e : Eq J⦄ where
  after_task : Outcome → Life J → Life J
  after_task returned l = l
  after_task was_cancelled l = l
  after_task (raised_error error) l = record_error error l

  unfoldable pub task_done : J → Outcome → Life J → Life J
  unfolding after_task
  task_done j out l = after_task out (record l { running_tasks = discard l.running_tasks j })
