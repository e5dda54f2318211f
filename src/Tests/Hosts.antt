-- ===== src/Tests/Hosts.antt =====
-- A service: its embedded broker, its engines, the stream client of a twin, and a client that waits.
use digital_twin_framework.Prelude.{
  ℕ, ◌+◌, ◌≤◌, ◌<◌, Text, codes, true, List, [], ◌∷◌, ◌++◌, none, some, Result, ok, raise, done,
  runtime_error, contains, nat_eq, list_eq, list_beq, Dict, lookup, insert, erase, ◌≡◌, ◌⊎◌, refl,
  arith, if◌then◌else◌, ltb,
}
use digital_twin_framework.Stream.Address.{Environment}
use digital_twin_framework.Stream.Backend.{connected}
use digital_twin_framework.Stream.Broker.{bound, silent, Spawn, System, terminates, killed}
use digital_twin_framework.Stream.Client.{Client}
use digital_twin_framework.Stream.Client.Consistent.{IsConsistent}
use digital_twin_framework.Stream.Client.Delivery.Subscribing.{IsOpen}
use digital_twin_framework.Stream.Endpoint.{connect_stream_client}
use digital_twin_framework.Service.Embedded.{no_broker, stream_addresses}
use digital_twin_framework.Service.Embedded.Addresses
use digital_twin_framework.Service.Embedded.Addresses.{asking, supervising, dying, first_spawn}
use digital_twin_framework.Service.Embedded.Addresses.Sticking.{IsStuck, failed_start_sticks}
use digital_twin_framework.Service.Twin
use digital_twin_framework.Service.Twin.{Twin, of_runtime, new_twin, init_twin, live, live_twin}
use digital_twin_framework.Service.Plugin.{twin_id_ok}
use digital_twin_framework.Service.Streams.{accepted_twin_connects}
use digital_twin_framework.Service.Client.{Entry, poll_interval, session_twin_list, wait_ready}
use digital_twin_framework.Service.Client.Waiting.{wait_ready_ends}
use digital_twin_framework.Service.Client.Settled.{Serves, settled, wait_ready_settles}
use digital_twin_framework.Service.Engines.{
  Engines, new_engines, is_active, over, Event, landing, closing, steps,
}
use digital_twin_framework.Service.Engines
use digital_twin_framework.Service.Engines.Single.{one_build_per_name}
use digital_twin_framework.Service.Engines.Owned.{no_engine_leaks}

abbrev nowhere : Environment
nowhere = record { pub_addr = none; sub_addr = none }

-- A system whose broker resolves the wildcards of the default to two ports.
abbrev ports : Text × Text → Spawn
ports (p, s) =
    bound (if contains p b'*' then codes "p" else p) (if contains s b'*' then codes "s" else s)

abbrev healthy : System
healthy = record { spawns = ports; resists = terminates }

abbrev dead : System
dead = record { spawns = λ asked. silent; resists = killed }

abbrev troubles : List Addresses.Event
troubles = dying ∷ supervising dead ∷ supervising healthy ∷ asking dead ∷ []

first_is_silent : (p s : Text) → ¬ (first_spawn nowhere dead ≡ bound p s)
first_is_silent p s h = cc

failed_start_sticks_example :
    let e = Addresses.steps nowhere troubles (stream_addresses nowhere dead no_broker).1 in
    IsStuck e
    × ((stream_addresses nowhere healthy e).0 ≡ ok none)
    × IsStuck (stream_addresses nowhere healthy e).1
failed_start_sticks_example = failed_start_sticks nowhere dead healthy troubles first_is_silent

-- The session lists a twin that is ready after two seconds.
abbrev twins : ℕ → Dict Text (Twin ℕ)
twins k = (codes "a", if ltb k 2000 then new_twin else (init_twin Twin.connected new_twin).1) ∷ []

abbrev answer : ℕ → Result (List Entry)
answer k = ok (session_twin_list (twins k))

abbrev latency : ℕ → ℕ
latency k = 10

wait_ready_ends_example :
    (r : Result Text) × (t : ℕ) × (wait_ready answer latency (codes "a") 5000 100 ≡ some (r, t))
    × (t ≤ 100 + 5000 + poll_interval + 10)
wait_ready_ends_example = wait_ready_ends answer latency 10 (codes "a") 5000 100 (λ k. omega arith)

young : (k : ℕ) → k < 2000 → lookup (codes "a") (twins k) ≡ some new_twin
unfolding lookup list_beq
young k h = ground arith

old : (k : ℕ) → 2000 ≤ k → lookup (codes "a") (twins k) ≡ some (init_twin Twin.connected new_twin).1
unfolding lookup list_beq
old k h = ground arith

serves : Serves ℕ answer twins (codes "a") Twin.connected 2000
serves = (λ k. refl, young, old)

wait_ready_settles_example :
    (t : ℕ) × (wait_ready answer latency (codes "a") 5000 100 ≡ some (settled Twin.connected, t))
    × (100 ≤ t)
wait_ready_settles_example =
    wait_ready_settles ℕ answer twins latency 10 (codes "a") Twin.connected 2000 5000 100 serves
      (λ k. omega arith) (omega arith)

-- Two twins ask for the engine, whose first build fails.
abbrev early : List Event
early =
    Event.asking (codes "task")
    ∷ landing 0 (raise runtime_error)
    ∷ Event.asking (codes "task")
    ∷ Event.asking (codes "task")
    ∷ []

early-active : is_active (steps early new_engines).phase ≡ true
unfolding steps Engines.step Engines.engine Engines.build_engine new_engines lookup insert list_beq
    erase
early-active = refl

early-runs : lookup 1 (steps early new_engines).running ≡ some (codes "task")
unfolding steps Engines.step Engines.engine Engines.build_engine new_engines lookup insert list_beq
    erase
early-runs = refl

one_build_per_name_example :
    (◌≡◌ {A = ℕ} 1 1) × (lookup (codes "task") (steps early new_engines).engines ≡ none)
one_build_per_name_example =
    one_build_per_name early 1 1 (codes "task") early-active early-runs early-runs

-- The session closes, and the build lands afterwards.
abbrev late : List Event
late = early ++ (closing ∷ landing 1 (ok 9) ∷ closing ∷ closing ∷ closing ∷ [])

late-created : contains (steps late new_engines).created 9 ≡ true
unfolding steps Engines.step Engines.engine Engines.build_engine Engines.close new_engines lookup
    insert list_beq erase
late-created = refl

no_engine_leaks_example :
    (((n : Text) × (lookup n (steps late new_engines).engines ≡ some 9))
      ⊎ (contains (steps late new_engines).stopped 9 ≡ true))
    × ((steps late new_engines).phase ≡ over → contains (steps late new_engines).stopped 9 ≡ true)
no_engine_leaks_example = no_engine_leaks late 9 late-created

a_id : twin_id_ok (codes "a") ≡ true
unfolding twin_id_ok
a_id = refl

accepted_twin_connects_example :
    (c : Client ℕ) × (connect_stream_client nowhere connected connected (codes "a") none none
      ≡ record { status = done; opened = some c; transport = some c.backend })
    × (c.namespace ≡ codes "a")
    × IsOpen c.backend
    × IsConsistent c
accepted_twin_connects_example = accepted_twin_connects nowhere (codes "a") none none a_id
