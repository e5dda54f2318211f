-- ===== src/Service/Embedded/Addresses/Sticking.antt =====
-- A plugin whose broker could not be started. src/digitaltwin/service/plugin.py.
use digital_twin_framework.Prelude.{
  Text, List, [], ◌∷◌, some, none, Result, ok, raise, ◌≡◌, refl, arith, nat_eq, subst, sym,
}
use digital_twin_framework.Stream.Address.{Environment, embedded_stream_addresses}
use digital_twin_framework.Stream.Broker
use digital_twin_framework.Stream.Broker.{
  Broker, Spawn, not_started, lost, silent, bound, Resistance, terminates, killed, survives, System,
  new_broker, is_alive, spawn, with_addrs, start_with, reap,
}
use digital_twin_framework.Service.Embedded.{
  Embedded, no_broker, stream_addresses, supervise, supervise_with, respawn, start_new,
  with_started, broker_dies, armed,
}
use digital_twin_framework.Service.Embedded.Addresses.{
  Event, asking, supervising, dying, step, steps, first_spawn, either,
}

-- A broker that never started, and no addresses.
pub record IsStuck (e : Embedded) : Type 0 where
  pub broker : Broker
  pub kept : e.stream_broker ≡ some broker
  pub no_process : broker.proc ≡ none
  pub no_addresses : e.stream_addrs ≡ none

asking-IsStuck :
    (env : Environment) (w : System) (e : Embedded)
    → IsStuck e
    → IsStuck (stream_addresses env w e).1
unfolding stream_addresses
asking-IsStuck env w e h = record {
  broker = h.broker;
  kept = ground (arith, h.kept);
  no_process = h.no_process;
  no_addresses = ground (arith, h.kept);
}

stuck_supervised : (w : System) (e : Embedded) → IsStuck e → supervise w e ≡ e
unfolding supervise supervise_with respawn
stuck_supervised w e h =
    either (λ x. x ≡ e) e.supervised (supervise_with w e.stream_broker e) e
      (subst (λ o. supervise_with w o e ≡ e) (sym h.kept)
        (either (λ x. x ≡ e) (is_alive h.broker) e (respawn w h.broker e.stream_addrs e) refl
          (subst (λ o. respawn w h.broker o e ≡ e) (sym h.no_addresses) refl)))
      refl

step-IsStuck : (env : Environment) (x : Event) (e : Embedded) → IsStuck e → IsStuck (step env x e)
unfolding step supervise broker_dies Broker.crash is_alive
step-IsStuck env (asking w) e h = asking-IsStuck env w e h
step-IsStuck env (supervising w) e h = subst IsStuck (sym (stuck_supervised w e h)) h
step-IsStuck env dying e h = record {
  broker = Broker.crash h.broker;
  kept = ground (arith, h.kept);
  no_process = ground (arith, h.no_process);
  no_addresses = h.no_addresses;
}

steps-IsStuck :
    (env : Environment) (xs : List Event) (e : Embedded) → IsStuck e → IsStuck (steps env xs e)
unfolding steps
steps-IsStuck env [] e h = h
steps-IsStuck env (x ∷ xs) e h = steps-IsStuck env xs (step env x e) (step-IsStuck env x e h)

stuck_answer :
    (env : Environment) (w : System) (e : Embedded)
    → IsStuck e
    → (stream_addresses env w e).0 ≡ ok none
unfolding stream_addresses
stuck_answer env w e h = ground (arith, h.kept, h.no_addresses)

failed_spawn :
    (r : Resistance) (x : Spawn) (b : Broker)
    → b.proc ≡ none
    → ((p s : Text) → ¬ (x ≡ bound p s))
    → IsStuck (with_started (with_addrs (spawn r x b)) no_broker).1
unfolding with_started with_addrs spawn reap no_broker
failed_spawn r (not_started x) b n h = record {
  broker = _;
  kept = refl;
  no_process = refl;
  no_addresses = refl;
}
failed_spawn r (lost x) b n h = record {
  broker = _;
  kept = refl;
  no_process = refl;
  no_addresses = refl;
}
failed_spawn terminates silent b n h = record {
  broker = _;
  kept = refl;
  no_process = refl;
  no_addresses = refl;
}
failed_spawn killed silent b n h = record {
  broker = _;
  kept = refl;
  no_process = refl;
  no_addresses = refl;
}
failed_spawn survives silent b n h = record {
  broker = _;
  kept = refl;
  no_process = refl;
  no_addresses = refl;
}
failed_spawn r (bound p s) b n h = absurd (h p s refl)

armed-IsStuck : (x : Result (Unit {0}) × Embedded) → IsStuck x.1 → IsStuck (armed x).1
unfolding armed
armed-IsStuck (ok u, e) h = record {
  broker = h.broker;
  kept = h.kept;
  no_process = h.no_process;
  no_addresses = h.no_addresses;
}
armed-IsStuck (raise x, e) h = h

failed_start :
    (env : Environment) (v : System)
    → ((p s : Text) → ¬ (first_spawn env v ≡ bound p s))
    → IsStuck (stream_addresses env v no_broker).1
unfolding stream_addresses no_broker Broker.start start_with new_broker start_new
failed_start env v h =
    let (p, s) = embedded_stream_addresses env in
    let b = new_broker (some p) (some s) in
    armed-IsStuck (start_new v (p, s) no_broker)
      (failed_spawn v.resists (v.spawns b.asked) b refl h)

-- A plugin whose first start of the broker fails never gets a broker that runs before it shuts down:
-- whatever happens then, its supervisor and further requests included, and though every later start
-- would succeed, it is left with the broker that never started, without a process and without
-- addresses, and `stream_addresses` does not raise again but returns `None`.
pub failed_start_sticks :
    (env : Environment) (v w : System) (xs : List Event)
    → ((p s : Text) → ¬ (first_spawn env v ≡ bound p s))
    → let e = steps env xs (stream_addresses env v no_broker).1 in
      IsStuck e × ((stream_addresses env w e).0 ≡ ok none) × IsStuck (stream_addresses env w e).1
failed_start_sticks env v w xs h =
    let e = steps env xs (stream_addresses env v no_broker).1 in
    let k = steps-IsStuck env xs (stream_addresses env v no_broker).1 (failed_start env v h) in
    (k, stuck_answer env w e k, asking-IsStuck env w e k)
