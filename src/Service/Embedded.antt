-- ===== src/Service/Embedded.antt =====
-- The stream broker that a plugin embeds: `stream_addresses`, `_supervise` and `shutdown` of
-- `PluginDT`, src/digitaltwin/service/plugin.py, over the broker process of `Stream.Broker`. Each
-- holds a lock for its whole step.
pub mod Addresses
use digital_twin_framework.Prelude.{
  Text, Bool, true, false, Option, none, some, Result, ok, raise, Error, ◌>>=◌, if◌then◌else◌,
}
use digital_twin_framework.Stream.Address.{Environment, embedded_stream_addresses}
use digital_twin_framework.Stream.Broker
use digital_twin_framework.Stream.Broker.{Broker, Resistance, System, new_broker, is_alive}

pub record Embedded : Type 0 where
  pub stream_broker : Option Broker
  pub stream_addrs : Option (Text × Text)
  pub supervised : Bool

unfoldable pub no_broker : Embedded
no_broker = record { stream_broker = none; stream_addrs = none; supervised = false }

-- A broker that was made for these addresses and started: it is kept, also if the start raised.
with_started : Result (Option (Text × Text)) × Broker → Embedded → Result (Unit {0}) × Embedded
with_started (ok a, b) e = (ok tt, record e { stream_broker = some b; stream_addrs = a })
with_started (raise x, b) e = (raise x, record e { stream_broker = some b })

unfoldable pub start_new : System → Text × Text → Embedded → Result (Unit {0}) × Embedded
unfolding with_started new_broker
start_new w (p, s) e = with_started (Broker.start w (new_broker (some p) (some s))) e

-- `stream_addresses` after the broker was seen to: the supervisor is armed.
armed : Result (Unit {0}) × Embedded → Result (Option (Text × Text)) × Embedded
armed (ok u, e) = (ok e.stream_addrs, record e { supervised = true })
armed (raise x, e) = (raise x, e)

addresses_with :
    Environment → System → Option Broker → Embedded → Result (Option (Text × Text)) × Embedded
unfolding armed start_new
addresses_with env w none e = armed (start_new w (embedded_stream_addresses env) e)
addresses_with env w (some b) e = armed (ok tt, e)

unfoldable pub stream_addresses :
    Environment → System → Embedded → Result (Option (Text × Text)) × Embedded
unfolding addresses_with
stream_addresses env w e = addresses_with env w e.stream_broker e

-- One turn of the supervisor. A dead broker is stopped, and a new one is started on the addresses
-- that were reported; without any, the log line raises before that. What is raised is only logged.
respawned : System → Text × Text → Embedded → Result (Unit {0}) × Broker → Embedded
unfolding start_new
respawned w a e (ok u, b) = (start_new w a (record e { stream_broker = some b })).1
respawned w a e (raise x, b) = record e { stream_broker = some b }

respawn : System → Broker → Option (Text × Text) → Embedded → Embedded
unfolding respawned
respawn w b none e = e
respawn w b (some a) e = respawned w a e (Broker.stop w.resists b)

supervise_with : System → Option Broker → Embedded → Embedded
unfolding respawn
supervise_with w none e = e
supervise_with w (some b) e = if is_alive b then e else respawn w b e.stream_addrs e

unfoldable pub supervise : System → Embedded → Embedded
unfolding supervise_with
supervise w e = if e.supervised then supervise_with w e.stream_broker e else e

-- The end of `shutdown`: what the stop raises leaves the reported addresses.
without_broker : Embedded → Result (Unit {0}) × Broker → Result (Unit {0}) × Embedded
without_broker e (ok u, b) =
    (ok tt, record { stream_broker = none; stream_addrs = none; supervised = false })
without_broker e (raise x, b) = (raise x, record e { stream_broker = none; supervised = false })

unfoldable pub shutdown : Resistance → Embedded → Result (Unit {0}) × Embedded
unfolding without_broker
shutdown r e = elim e.stream_broker [
  | none ↦ (ok tt, record { stream_broker = none; stream_addrs = none; supervised = false })
  | some b ↦ without_broker e (Broker.stop r b)
]

-- The broker's process dies by itself.
unfoldable pub broker_dies : Embedded → Embedded
broker_dies e = record e {
  stream_broker = elim e.stream_broker [ none ↦ none | some b ↦ some (Broker.crash b) ];
}
