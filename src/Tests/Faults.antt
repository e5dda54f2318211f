-- ===== src/Tests/Faults.antt =====
-- A barrier that is added late, a cancelled caller of a shared subtask, and a broker that is respawned.
use digital_twin_framework.Prelude.{
  ℕ, suc, Text, codes, true, List, [], ◌∷◌, ◌++◌, none, some, ok, runtime_error, nat_eq, list_eq,
  list_beq, lookup, insert, length, if◌then◌else◌, ◌==◌, ◌≡◌, ◌⊎◌, is_some, refl, Error, false,
}
use digital_twin_framework.Dtype.{Dtype, plain, TypedData, dtype_eq}
use digital_twin_framework.Dtype.Equality.{dtype_has_eq}
use digital_twin_framework.Barrier.{Barrier, new_barrier, add_dtype, put, get, run_step}
use digital_twin_framework.Runtime.Flow.{
  Event, arriving, taking, placing, other, running, Line, new_line, steps, Cell, free, holding,
  give,
}
use digital_twin_framework.Runtime.Flow.Growing.{grow, hand_next, grown_chain_bypassed}
use digital_twin_framework.Runtime.Shared.Endings.{
  Computing, pending, cancelled, call_from, cancel_caller, seen_by, cancelled_caller_cancels_all,
}
use digital_twin_framework.Stream.Address.{random_addr}
use digital_twin_framework.Stream.Broker.{new_broker, start, terminates}
use digital_twin_framework.Runtime.Lifecycle.{closed, is_terminal}
use digital_twin_framework.Stream.Backend
use digital_twin_framework.Stream.Backend.{Backend}
use digital_twin_framework.Runtime.Watching
use digital_twin_framework.Runtime.Watching.Reported.{stalled_stream_reported}
use digital_twin_framework.Stream.Proxy.{
  Zmq, context_terminated, proxy_returned, hosting, respawn_same_addresses,
}

abbrev load : Dtype
load = plain (codes "load")

abbrev first_of : List ℕ → ℕ
first_of [] = 0
first_of (x ∷ xs) = x

abbrev item : TypedData ℕ
item = record { dtype = load; content = 1 }

-- A barrier with the loads as a hard stream, and a new one.
abbrev gate : Barrier ℕ
gate = (add_dtype load none (new_barrier (codes "b") true)).1

abbrev second_gate : Barrier ℕ
second_gate = (add_dtype load none (new_barrier (codes "c") true)).1

abbrev traffic : List (Event ℕ)
traffic = arriving item ∷ taking ∷ placing 0 ∷ other 0 running ∷ other 0 running ∷ []

abbrev line : Line ℕ
line = steps first_of load traffic (new_line (gate ∷ []))

abbrev left_over : List (Cell ℕ)
left_over = (give load line.cells).1

line-gives : give load line.cells ≡ (holding item, left_over)
unfolding give steps new_line put get run_step add_dtype new_barrier lookup insert list_beq dtype_eq
line-gives = refl

one_barrier : 1 ≡ length line.cells
unfolding steps new_line add_dtype new_barrier put get run_step lookup insert list_beq dtype_eq
one_barrier = refl

grown_chain_bypassed_example :
    let w = hand_next load (grow second_gate (record { line = line; parked = 0 })) in
    (w.line.delivered ≡ line.delivered ++ (item ∷ []))
    × (w.line.cells ≡ left_over ++ ((free, second_gate) ∷ []))
    × (suc w.parked ≡ length w.line.cells)
grown_chain_bypassed_example =
    grown_chain_bypassed load line 0 item left_over second_gate one_barrier line-gives

abbrev sharing : Computing ℕ Text
sharing = record {
  shared = record {
    cache = record { cache = (5, 0) ∷ []; max_size = 2 };
    started = (5, 0) ∷ [];
    next = 1;
  };
  fate = λ n. pending;
  awaits = [];
}

cancelled_caller_cancels_all_example :
    (w₁ : Computing ℕ Text) × (call_from 1 5 sharing ≡ ok w₁)
    × ((w₂ : Computing ℕ Text) × (call_from 2 5 w₁ ≡ ok w₂)
        × (seen_by 2 (cancel_caller 1 w₂) ≡ some cancelled)
        × ((w₃ : Computing ℕ Text) × (call_from 3 5 (cancel_caller 1 w₂) ≡ ok w₃)
            × (seen_by 3 w₃ ≡ some cancelled)
            × (w₃.shared.started ≡ sharing.shared.started)))
unfolding lookup
cancelled_caller_cancels_all_example = cancelled_caller_cancels_all 1 2 3 5 0 sharing refl refl

-- zmq resolves the one wildcard of both sockets to a port for each, and binds other addresses as they
-- are.
abbrev zmq : Zmq
zmq = record {
  bind_first = λ a. ok (if a == random_addr then codes "p" else a);
  bind_second = λ a. ok (if a == random_addr then codes "s" else a);
}

respawn_same_addresses_example :
    ((start
        (hosting zmq context_terminated runtime_error terminates)
        (new_broker (some random_addr) (some random_addr))).0
      ≡ ok (some (codes "p", codes "s")))
    × ((start
          (hosting zmq proxy_returned runtime_error terminates)
          (new_broker (some (codes "p")) (some (codes "s")))).0
        ≡ ok (some (codes "p", codes "s")))
unfolding list_beq
respawn_same_addresses_example =
    respawn_same_addresses zmq zmq context_terminated proxy_returned runtime_error terminates
      random_addr random_addr (codes "p") (codes "s") (λ h. cc) (λ h. cc) (λ h. cc) (λ h. cc) refl
      refl refl refl

abbrev reason : Error → Text
reason e = codes "RuntimeError: stream receive loop exited"

abbrev transport : Backend ℕ ℕ
transport = Backend.init (some (codes "p")) (some (codes "s"))

transport-open : transport.closed ≡ false
unfolding Backend.init
transport-open = refl

-- A twin that runs, and whose stream is gone.
abbrev episode : List (Watching.Event ℕ)
episode = Watching.starting ∷ Watching.spawning 4 ∷ []

stalled_stream_reported_example :
    let h = Watching.steps reason episode (Watching.new_runtime reason transport) in
    let h' = Watching.loop_ends reason false none h in
    ((h.life.stop_task ≡ some closed) × (h' ≡ h))
    ⊎ ((is_terminal h'.life.state ≡ true) × (is_some h'.life.last_error ≡ true))
stalled_stream_reported_example =
    stalled_stream_reported reason episode transport none transport-open
