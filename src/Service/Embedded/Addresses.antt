-- ===== src/Service/Embedded/Addresses.antt =====
-- The addresses that a plugin reports, whatever becomes of its broker.
-- src/digitaltwin/service/plugin.py.
pub mod Sticking
use digital_twin_framework.Prelude.{
  Text, true, false, List, [], ◌∷◌, some, ◌≡◌, ◌≢◌, is_some, contains, nat_eq, Bool, if◌then◌else◌,
}
use digital_twin_framework.Stream.Address.{Environment, embedded_stream_addresses}
use digital_twin_framework.Stream.Broker
use digital_twin_framework.Stream.Broker.{Broker, Spawn, bound, System, new_broker}
use digital_twin_framework.Service.Embedded.{
  Embedded, stream_addresses, supervise, broker_dies, armed,
}

-- What happens to the embedded broker before the host shuts down.
pub data Event : Type 0 where
  asking supervising : System → Event
  dying : Event

unfoldable pub step : Environment → Event → Embedded → Embedded
step env (asking w) e = (stream_addresses env w e).1
step env (supervising w) e = supervise w e
step env dying e = broker_dies e

unfoldable pub steps : Environment → List Event → Embedded → Embedded
unfolding step
steps env [] e = e
steps env (x ∷ xs) e = steps env xs (step env x e)

-- An address without a wildcard.
pub record IsConcrete (t : Text) : Type 0 where
  pub full : t ≢ []
  pub no_wildcard : contains t b'*' ≡ false

-- What zmq documents of a system: a broker that binds two addresses without wildcards reports them.
abbrev pub BindsConcrete : System → Type 0
BindsConcrete w =
    (p s p' s' : Text)
    → IsConcrete p
    → IsConcrete s
    → w.spawns (p, s) ≡ bound p' s'
    → (p' ≡ p) × (s' ≡ s)

abbrev pub IsHonest : Event → Type 0
IsHonest (supervising w) = BindsConcrete w
IsHonest _ = Unit

abbrev pub Reports : Text × Text → Embedded → Type 0
Reports a e = (is_some e.stream_broker ≡ true) × (e.stream_addrs ≡ some a)

either : {A : Type 0} (P : A → Type 0) (v : Bool) (x y : A) → P x → P y → P (if v then x else y)
either P true x y h k = h
either P false x y h k = k

-- The process of the first broker, which is told what the environment or the default says.
abbrev pub first_spawn : Environment → System → Spawn
first_spawn env w =
    let (p, s) = embedded_stream_addresses env in w.spawns (new_broker (some p) (some s)).asked
