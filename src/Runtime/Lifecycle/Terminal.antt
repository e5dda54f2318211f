-- ===== src/Runtime/Lifecycle/Terminal.antt =====
-- Steps of a twin's life and the states in which it ends, src/digitaltwin/runtime.py.
use digital_twin_framework.Prelude.{
  Text, Bool, true, false, List, [], Option, none, some, ok, raise, Error, runtime_error, is_some,
  Eq, discard, ◌≡◌, refl, arith,
}
use digital_twin_framework.Runtime.Lifecycle.{
  running, failed, Teardown, scheduled, cancelled, Life, is_terminal, Outcome, returned,
  was_cancelled, raised_error, new_life, start, stop, record_error, spawn, teardown_cancel,
  teardown_close, task_done,
}

-- What may happen to a twin. The teardown goes through its two steps in order, and a stream
-- failure is reported at any time.
pub data Step {J : Type 0} ⦃e : Eq J⦄ (l : Life J) : Life J → Type 0 where
  starting : Step l (start l).1
  stopping : Step l (stop l)
  spawning : (j : J) → Step l (spawn j l)
  ending : (j : J) (out : Outcome) → Step l (task_done j out l)
  reporting : (error : Text) → Step l (record_error error l)
  cancelling : l.stop_task ≡ some scheduled → Step l (teardown_cancel l)
  closing : (error : Option Text) → l.stop_task ≡ some cancelled → Step l (teardown_close error l)

pub data Reach {J : Type 0} ⦃e : Eq J⦄ (l : Life J) : Life J → Type 0 where
  here : Reach l l
  next : {m n : Life J} → Reach l m → Step m n → Reach l n

abbrev torn : Option Teardown → Bool
torn none = false
torn (some scheduled) = false
torn (some _) = true

-- A terminal twin has its teardown, a twin with a teardown is terminal, a failed twin has an
-- error, and no task is on the books once the teardown has cancelled the tasks.
pub record IsSound {J : Type 0} (l : Life J) : Type 0 where
  pub torn_down : is_terminal l.state ≡ is_some l.stop_task
  pub has_error : l.state ≡ failed → is_some l.last_error ≡ true
  pub quiet : torn l.stop_task ≡ true → l.running_tasks ≡ []

-- A stop records no error.
pub last_error-stop : {J : Type 0} (l : Life J) → (stop l).last_error ≡ l.last_error
unfolding stop
last_error-stop l = ground arith

-- A start that is refused changes nothing.
pub start-leaves : {J : Type 0} (l : Life J) (e : Error) → (start l).0 ≡ raise e → (start l).1 ≡ l
unfolding start
start-leaves l e h = ground arith

module _ {J : Type 0} ⦃e : Eq J⦄ where
  discard-nil : (xs : List J) (j : J) → xs ≡ [] → discard xs j ≡ []
  discard-nil xs j h = rw h

  pub Step-IsSound : {l m : Life J} → Step l m → IsSound l → IsSound m
  unfolding start stop spawn task_done record_error teardown_cancel teardown_close
  Step-IsSound {l} starting h = ground arith
  Step-IsSound {l} stopping h = ground arith
  Step-IsSound {l} (spawning j) h = ground arith
  Step-IsSound {l} (ending j returned) h = ground (arith, discard-nil l.running_tasks j)
  Step-IsSound {l} (ending j was_cancelled) h = ground (arith, discard-nil l.running_tasks j)
  Step-IsSound {l} (ending j (raised_error x)) h = ground (arith, discard-nil l.running_tasks j)
  Step-IsSound {l} (reporting error) h = ground arith
  Step-IsSound {l} (cancelling s) h = ground arith
  Step-IsSound {l} (closing error s) h = ground arith

  -- Whatever happens to a sound twin, it stays sound: it is terminal exactly if it has a teardown, a
  -- failed one has an error, and no task is on the books once the teardown has cancelled the tasks.
  pub Reach-IsSound : {l m : Life J} → IsSound l → Reach l m → IsSound m
  Reach-IsSound h here = h
  Reach-IsSound h (next r st) = Step-IsSound st (Reach-IsSound h r)

  pub new_life-IsSound : IsSound (new_life {J = J})
  unfolding new_life
  new_life-IsSound = ground arith

  -- What a twin keeps from a state in which it stopped or failed.
  pub record Keeps (l m : Life J) : Type 0 where
    pub state : m.state ≡ l.state
    pub error : l.state ≡ failed → m.last_error ≡ l.last_error
    pub quiet :
        torn l.stop_task ≡ true
        → (m.running_tasks ≡ [])
          × (torn m.stop_task ≡ true)
          × (m.cancelled_tasks ≡ l.cancelled_tasks)

  Step-Keeps : {l m : Life J} → Step l m → IsSound l → is_terminal l.state ≡ true → Keeps l m
  unfolding start stop spawn task_done record_error teardown_cancel teardown_close
  Step-Keeps {l} starting h t = ground arith
  Step-Keeps {l} stopping h t = ground arith
  Step-Keeps {l} (spawning j) h t = ground arith
  Step-Keeps {l} (ending j returned) h t = ground (arith, discard-nil l.running_tasks j)
  Step-Keeps {l} (ending j was_cancelled) h t = ground (arith, discard-nil l.running_tasks j)
  Step-Keeps {l} (ending j (raised_error x)) h t = ground (arith, discard-nil l.running_tasks j)
  Step-Keeps {l} (reporting error) h t = ground arith
  Step-Keeps {l} (cancelling s) h t = ground arith
  Step-Keeps {l} (closing error s) h t = ground arith

  Keeps-trans : {l m n : Life J} → is_terminal l.state ≡ true → Keeps l m → Keeps m n → Keeps l n
  Keeps-trans t a b = ground arith

  -- `stopped` and `failed` are final: from a sound twin in either state, however it goes on, the
  -- state stays, a failed twin keeps the error that it failed with, and once the teardown has
  -- cancelled its tasks no new task is ever started: none is on the books, and the only ones that may
  -- still run are those that it cancelled then.
  pub terminal_is_final :
      {l m : Life J} → IsSound l → is_terminal l.state ≡ true → Reach l m → Keeps l m
  terminal_is_final h t here = record {
    state = refl;
    error = λ _. refl;
    quiet = λ q. (h.quiet q, q, refl);
  }
  terminal_is_final {l} {m} h t (next {m = k} r st) =
      let a = terminal_is_final h t r in
      Keeps-trans t a (Step-Keeps st (Reach-IsSound h r) (ground (arith, a.state)))

  -- `start` succeeds exactly on a twin that has not stopped or failed, and then it is running and
  -- its components are let go; a refusal changes nothing.
  pub start_exact :
      (l : Life J)
      → (is_terminal l.state ≡ false
          → ((start l).0 ≡ ok tt) × ((start l).1.state ≡ running) × ((start l).1.is_start ≡ true))
        × (is_terminal l.state ≡ true → ((start l).0 ≡ raise runtime_error) × ((start l).1 ≡ l))
  unfolding start
  start_exact l = ground arith

  -- `stop` on a sound twin leaves it terminal with a teardown, keeps a failure, and a second call
  -- changes nothing more.
  pub stop_idempotent :
      (l : Life J)
      → IsSound l
      → (is_terminal (stop l).state ≡ true)
        × (is_some (stop l).stop_task ≡ true)
        × (l.state ≡ failed → stop l ≡ l)
        × (stop (stop l) ≡ stop l)
  unfolding stop
  stop_idempotent l h = ground arith

  -- The first failure of a twin that has not stopped makes it failed, with that error and a
  -- teardown; a second one changes nothing.
  pub first_error_wins :
      (l : Life J) (x y : Text)
      → is_terminal l.state ≡ false
      → ((record_error x l).state ≡ failed)
        × ((record_error x l).last_error ≡ some x)
        × (is_some (record_error x l).stop_task ≡ true)
        × (record_error y (record_error x l) ≡ record_error x l)
  unfolding record_error
  first_error_wins l x y h = ground arith
