-- ===== src/Stream/Broker.antt =====
-- The broker as a subprocess: `ZMQ_BrokerProcess` of src/digitaltwin/streaming.py. What the operating
-- system does with a spawned process is a parameter of each call.
pub mod Reaped
use digital_twin_framework.Prelude.{
  ℕ, suc, ◌+◌, Text, Bool, true, false, Option, none, some, Result, ok, raise, timeout_error,
  value_error, Error, if◌then◌else◌, get_or_else, or_else,
}
use digital_twin_framework.Stream.Address.{random_addr, text_or}

-- A process handle: whether it was ever started, and whether it runs.
pub record Process : Type 0 where
  pub has_pid : Bool
  pub alive : Bool

-- `addrs` is the pair `publish_addr`, `subscribe_addr`, which are set and cleared together. `spawned`
-- and `reaped` count the handles that were made and that were joined and closed, and `left` those of
-- processes that nothing could end.
pub record Broker : Type 0 where
  pub asked : Text × Text
  pub proc : Option Process
  pub addrs : Option (Text × Text)
  pub spawned : ℕ
  pub reaped : ℕ
  pub left : ℕ

-- What a spawned broker does: it cannot be started, it does not report within the time, it dies
-- before it reports, or it reports the addresses that it bound.
pub data Spawn : Type 0 where
  not_started lost : Error → Spawn
  silent : Spawn
  bound : Text → Text → Spawn

-- What a process that runs does with `terminate` and, if it ignores that, with `kill`, within the time.
pub data Resistance : Type 0 where
  terminates killed survives : Resistance

-- What the system does in a call: with a process that is spawned for two addresses, and with one that
-- is to be stopped.
pub record System : Type 0 where
  pub spawns : Text × Text → Spawn
  pub resists : Resistance

unfoldable pub new_broker : Option Text → Option Text → Broker
new_broker pub_addr sub_addr = record {
  asked = (text_or pub_addr random_addr, text_or sub_addr random_addr);
  proc = none;
  addrs = none;
  spawned = 0;
  reaped = 0;
  left = 0;
}

terminated : Resistance → Process → Process
terminated terminates p = record p { alive = false }
terminated killed p = p
terminated survives p = p

after_kill : Resistance → Process → Process
after_kill survives p = p
after_kill _ p = record p { alive = false }

-- The branches of `_stop` before the handle is closed.
ended : Resistance → Process → Process
unfolding terminated after_kill
ended r p =
    let q = if p.alive then terminated r p else p in
    let q' = if q.alive then after_kill r q else q in if p.has_pid then q' else p

-- `proc.close()`, which raises on a process that still runs.
closed : Process → Broker → Result (Unit {0}) × Broker
closed p b =
    if p.alive
    then (raise value_error, record b { left = suc b.left })
    else (ok tt, record b { reaped = suc b.reaped })

-- `_stop`: terminate, kill what ignores it, and close the handle.
unfoldable pub reap : Resistance → Process → Broker → Result (Unit {0}) × Broker
unfolding closed ended
reap r p b = closed (ended r p) (record b { proc = none })

forget_addrs : Result (Unit {0}) × Broker → Result (Unit {0}) × Broker
forget_addrs (ok u, b) = (ok u, record b { addrs = none })
forget_addrs (raise e, b) = (raise e, b)

stop_with : Resistance → Option Process → Broker → Result (Unit {0}) × Broker
unfolding reap forget_addrs
stop_with r none b = (ok tt, b)
stop_with r (some p) b = forget_addrs (reap r p b)

-- `stop`
unfoldable pub stop : Resistance → Broker → Result (Unit {0}) × Broker
unfolding stop_with
stop r b = stop_with r b.proc b

-- The handler of `_start`: what `_stop` raises takes the place of what was raised.
failing : Error → Result (Unit {0}) × Broker → Result (Text × Text) × Broker
failing e (ok u, b) = (raise e, b)
failing e (raise e', b) = (raise e', b)

-- `_start`, on what the new process does; a failure ends it.
unfoldable pub spawn : Resistance → Spawn → Broker → Result (Text × Text) × Broker
unfolding reap failing
spawn r (not_started e) b =
    failing e
      (reap r (record { has_pid = false; alive = false }) (record b { spawned = suc b.spawned }))
spawn r silent b =
    failing timeout_error
      (reap r (record { has_pid = true; alive = true }) (record b { spawned = suc b.spawned }))
spawn r (lost e) b =
    failing e
      (reap r (record { has_pid = true; alive = false }) (record b { spawned = suc b.spawned }))
spawn r (bound p s) b = (
  ok (p, s),
  record b { proc = some (record { has_pid = true; alive = true }); spawned = suc b.spawned },
)

unfoldable pub with_addrs : Result (Text × Text) × Broker → Result (Option (Text × Text)) × Broker
with_addrs (ok a, b) = (ok (some a), record b { addrs = some a })
with_addrs (raise e, b) = (raise e, b)

unfoldable pub start_with :
    Option Process → System → Broker → Result (Option (Text × Text)) × Broker
unfolding with_addrs spawn
start_with (some p) w b = (ok b.addrs, b)
start_with none w b = with_addrs (spawn w.resists (w.spawns b.asked) b)

-- `start`: a broker that has a process is left alone, and reports its addresses.
unfoldable pub start : System → Broker → Result (Option (Text × Text)) × Broker
unfolding start_with
start w b = start_with b.proc w b

unfoldable pub is_alive : Broker → Bool
is_alive b = elim b.proc [ none ↦ false | some p ↦ p.alive ]

-- The process dies by itself.
unfoldable pub crash : Broker → Broker
crash b = record b {
  proc = elim b.proc [ none ↦ none | some p ↦ some (record p { alive = false }) ];
}
