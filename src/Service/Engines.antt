-- ===== src/Service/Engines.antt =====
-- The engines that the twins of a session share: `engine`, `_build_engine` and `close` of
-- `DTSession`, src/digitaltwin/service/session.py. What a coroutine does between two waits is one
-- step. `_create_engine`, which is asyncflow's and rhapsody's, is a parameter of the step in which it
-- comes back; an engine is a number.
pub mod Single
pub mod Owned
use digital_twin_framework.Prelude.{
  ℕ, suc, Text, Bool, true, false, List, [], ◌∷◌, ◌++◌, Option, none, some, Dict, lookup, insert,
  erase, has, values, nat_eq, list_eq, Result, ok, raise, Error, if◌then◌else◌,
}

-- How far `close` has come: not called, the session inactive, the builds forgotten, the engines shut
-- down, and all done.
pub data Phase : Type 0 where
  active inactive forgotten shut_down over : Phase

-- `running` holds the builds that are not done, by number, each with the name of its engine.
-- `created` are the engines that `_create_engine` gave, `stopped` those that were shut down.
pub record Engines : Type 0 where
  pub phase : Phase
  pub engines : Dict Text ℕ
  pub engine_tasks : Dict Text ℕ
  pub running : Dict ℕ Text
  pub builds : ℕ
  pub created : List ℕ
  pub stopped : List ℕ

unfoldable pub new_engines : Engines
new_engines = record {
  phase = active;
  engines = [];
  engine_tasks = [];
  running = [];
  builds = 0;
  created = [];
  stopped = [];
}

abbrev pub is_active : Phase → Bool
is_active active = true
is_active _ = false

-- What a caller of `engine` gets: the engine, or the number of the build that it awaits.
pub data Answer : Type 0 where
  gets awaits : ℕ → Answer

start_build : Text → Engines → Answer × Engines
start_build name e = (
  awaits e.builds,
  record e {
    engine_tasks = insert name e.builds e.engine_tasks;
    running = (e.builds, name) ∷ e.running;
    builds = suc e.builds;
  },
)

-- The first build, or a retry when the last one is done.
join_build : Text → Option ℕ → Engines → Answer × Engines
unfolding start_build
join_build name none e = start_build name e
join_build name (some task) e = if has task e.running then (awaits task, e) else start_build name e

engine_with : Text → Option ℕ → Engines → Answer × Engines
unfolding join_build
engine_with name (some flow) e = (gets flow, e)
engine_with name none e = join_build name (lookup name e.engine_tasks) e

unfoldable pub engine : Text → Engines → Answer × Engines
unfolding engine_with
engine name e = engine_with name (lookup name e.engines) e

-- The rest of `_build_engine`, on an engine that was created: an inactive session disposes of it.
landed : Bool → Text → ℕ → Engines → Engines
landed true name flow e = record e {
  engines = insert name flow e.engines;
  created = flow ∷ e.created;
}
landed false name flow e = record e { created = flow ∷ e.created; stopped = flow ∷ e.stopped }

build_ends : Option Text → ℕ → Result ℕ → Engines → Engines
unfolding landed
build_ends none task out e = e
build_ends (some name) task (raise x) e = record e { running = erase task e.running }
build_ends (some name) task (ok flow) e =
    landed (is_active e.phase) name flow (record e { running = erase task e.running })

-- `_create_engine` comes back in the build of a number, if that runs.
unfoldable pub build_engine : ℕ → Result ℕ → Engines → Engines
unfolding build_ends
build_engine task out e = build_ends (lookup task e.running) task out e

-- The next part of `close`.
close_from : Phase → Engines → Engines
close_from active e = record e { phase = inactive }
close_from inactive e = record e { phase = forgotten; engine_tasks = [] }
close_from forgotten e = record e { phase = shut_down; stopped = values e.engines ++ e.stopped }
close_from shut_down e = record e { phase = over; engines = [] }
close_from over e = e

unfoldable pub close : Engines → Engines
unfolding close_from
close e = close_from e.phase e

-- Everything that happens to the engines of a session, in any order.
pub data Event : Type 0 where
  asking : Text → Event
  landing : ℕ → Result ℕ → Event
  closing : Event

unfoldable pub step : Event → Engines → Engines
unfolding engine build_engine close
step (asking name) e = (engine name e).1
step (landing task out) e = build_engine task out e
step closing e = close e

unfoldable pub steps : List Event → Engines → Engines
unfolding step
steps [] e = e
steps (x ∷ xs) e = steps xs (step x e)
