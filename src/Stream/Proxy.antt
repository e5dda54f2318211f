-- ===== src/Stream/Proxy.antt =====
-- The broker inside its process: `ZMQ_Broker` and `_broker_main`, src/digitaltwin/streaming.py. What
-- zmq does with an address, and how its proxy ends, are parameters.
use digital_twin_framework.Prelude.{
  Text, [], Option, none, some, Result, ok, raise, Error, ◌≡◌, ◌≢◌, ◌⊎◌, refl, arith,
}
use digital_twin_framework.Stream.Address.{random_addr, text_or, text_or-full}
use digital_twin_framework.Stream.Broker.{
  Spawn, lost, bound, Resistance, System, new_broker, start, start_with, spawn, with_addrs,
}

-- A socket of the broker, which remembers the endpoint that it was bound to.
pub data Socket : Type 0 where
  unbound closed : Socket
  bound_to : Text → Socket

-- `ctx` is missing, open or terminated; the sockets are made with it.
pub data Context : Type 0 where
  no_context opened terminated : Context

pub record Proxy : Type 0 where
  pub publish_addr : Text
  pub subscribe_addr : Text
  pub ctx : Context
  pub pub_recv : Option Socket
  pub sub_send : Option Socket

-- How `zmq.proxy` ends: its context is terminated under it, it returns, or it raises.
pub data ProxyEnd : Type 0 where
  context_terminated proxy_returned : ProxyEnd
  proxy_raised : Error → ProxyEnd

-- What zmq does in one process: the endpoints that binding the first and then the second socket to an
-- address gives. A wildcard may give a different endpoint for each of them, and in each process.
pub record Zmq : Type 0 where
  pub bind_first : Text → Result Text
  pub bind_second : Text → Result Text

unfoldable pub new_proxy : Option Text → Option Text → Proxy
new_proxy pub_addr sub_addr = record {
  publish_addr = text_or pub_addr random_addr;
  subscribe_addr = text_or sub_addr random_addr;
  ctx = no_context;
  pub_recv = none;
  sub_send = none;
}

abbrev pub get_connection_str : Proxy → Text × Text
get_connection_str b = (b.publish_addr, b.subscribe_addr)

with_endpoints : Result Text → Result Text → Proxy → Result (Text × Text) × Proxy
with_endpoints (raise e) s b =
    (raise e, record b { ctx = opened; pub_recv = some unbound; sub_send = some unbound })
with_endpoints (ok p) (raise e) b =
    (raise e, record b { ctx = opened; pub_recv = some (bound_to p); sub_send = some unbound })
with_endpoints (ok p) (ok s) b = (
  ok (p, s),
  record {
    publish_addr = p;
    subscribe_addr = s;
    ctx = opened;
    pub_recv = some (bound_to p);
    sub_send = some (bound_to s);
  },
)

-- `bind`: a context and two sockets, and the addresses that the system handed out.
unfoldable pub bind : Zmq → Proxy → Result (Text × Text) × Proxy
unfolding with_endpoints
bind zmq b = with_endpoints (zmq.bind_first b.publish_addr) (zmq.bind_second b.subscribe_addr) b

close_socket : Option Socket → Option Socket
close_socket none = none
close_socket (some s) = some closed

unfoldable pub release : Proxy → Proxy
unfolding close_socket
release b = record b {
  pub_recv = close_socket b.pub_recv;
  sub_send = close_socket b.sub_send;
  ctx = terminated;
}

proxied : ProxyEnd → Proxy → Result (Unit {0}) × Proxy
unfolding release
proxied context_terminated b = (ok tt, release b)
proxied proxy_returned b = (ok tt, release b)
proxied (proxy_raised e) b = (raise e, release b)

bound_first : ProxyEnd → Result (Text × Text) × Proxy → Result (Unit {0}) × Proxy
unfolding proxied
bound_first end (ok a, b) = proxied end b
bound_first end (raise e, b) = (raise e, b)

run_with : Context → Zmq → ProxyEnd → Proxy → Result (Unit {0}) × Proxy
unfolding bind bound_first proxied
run_with no_context zmq end b = bound_first end (bind zmq b)
run_with _ zmq end b = proxied end b

-- `run`: binds if nothing was bound, and releases everything however the proxy ends.
unfoldable pub run : Zmq → ProxyEnd → Proxy → Result (Unit {0}) × Proxy
unfolding run_with
run zmq end b = run_with b.ctx zmq end b

-- What the child sent to its parent, how it ended, and the broker.
pub record Child : Type 0 where
  pub sent : Option (Text × Text)
  pub result : Result (Unit {0})
  pub broker : Proxy

reported : Zmq → ProxyEnd → Result (Text × Text) × Proxy → Child
unfolding run
reported zmq end (raise e, b) = record { sent = none; result = raise e; broker = b }
reported zmq end (ok a, b) =
    let (r, b') = run zmq end b in record { sent = some a; result = r; broker = b' }

-- `_broker_main`
unfoldable pub broker_main : Zmq → ProxyEnd → Text × Text → Child
unfolding reported bind new_proxy
broker_main zmq end (p, s) = reported zmq end (bind zmq (new_proxy (some p) (some s)))

-- What the parent sees of a child: the addresses that it sent, or the end of the pipe.
abbrev pub seen_as : Error → Child → Spawn
seen_as end_of_file c = elim c.sent [ none ↦ lost end_of_file | some a ↦ bound a.0 a.1 ]

-- However the proxy ends, a child either could not bind and sent nothing, or it sent the addresses that
-- its broker has, and has closed both sockets and terminated the context.
pub child_releases :
    (zmq : Zmq) (end : ProxyEnd) (asked : Text × Text)
    → let c = broker_main zmq end asked in
      (c.sent ≡ none)
      ⊎ ((c.sent ≡ some (get_connection_str c.broker))
          × (c.broker.pub_recv ≡ some closed)
          × (c.broker.sub_send ≡ some closed)
          × (c.broker.ctx ≡ terminated))
unfolding broker_main bind run new_proxy release
child_releases zmq context_terminated (p, s) = ground arith
child_releases zmq proxy_returned (p, s) = ground arith
child_releases zmq (proxy_raised e) (p, s) = ground arith

-- A system that runs the broker in a child, and how it ends a process.
abbrev pub hosting : Zmq → ProxyEnd → Error → Resistance → System
hosting zmq end eof r = record {
  spawns = λ asked. seen_as eof (broker_main zmq end asked);
  resists = r;
}

sent_endpoints :
    (zmq : Zmq) (end : ProxyEnd) (p s p' s' : Text)
    → p ≢ []
    → s ≢ []
    → zmq.bind_first p ≡ ok p'
    → zmq.bind_second s ≡ ok s'
    → (broker_main zmq end (p, s)).sent ≡ some (p', s')
unfolding broker_main bind run new_proxy
sent_endpoints zmq end p s p' s' np ns bp bs =
    rw (text_or-full p random_addr np, text_or-full s random_addr ns, bp, bs) refl

start_reports :
    (zmq : Zmq) (end : ProxyEnd) (eof : Error) (r : Resistance) (p s p' s' : Text)
    → p ≢ []
    → s ≢ []
    → zmq.bind_first p ≡ ok p'
    → zmq.bind_second s ≡ ok s'
    → (start (hosting zmq end eof r) (new_broker (some p) (some s))).0 ≡ ok (some (p', s'))
unfolding start start_with new_broker spawn with_addrs
start_reports zmq end eof r p s p' s' np ns bp bs =
    rw
      (
        text_or-full p random_addr np,
        text_or-full s random_addr ns,
        sent_endpoints zmq end p s p' s' np ns bp bs,
      )
      refl

-- A broker process that starts, on any addresses that are not empty, wildcards included, reports the
-- endpoints that zmq bound in its child, and a new one on the reported endpoints reports the same ones,
-- so that clients find it again: if the reported endpoints are not empty, and if zmq, in the second
-- child, binds each of them as it is.
pub respawn_same_addresses :
    (zmq zmq' : Zmq) (end end' : ProxyEnd) (eof : Error) (r : Resistance) (p s p' s' : Text)
    → p ≢ []
    → s ≢ []
    → p' ≢ []
    → s' ≢ []
    → zmq.bind_first p ≡ ok p'
    → zmq.bind_second s ≡ ok s'
    → zmq'.bind_first p' ≡ ok p'
    → zmq'.bind_second s' ≡ ok s'
    → ((start (hosting zmq end eof r) (new_broker (some p) (some s))).0 ≡ ok (some (p', s')))
      × ((start (hosting zmq' end' eof r) (new_broker (some p') (some s'))).0 ≡ ok (some (p', s')))
respawn_same_addresses zmq zmq' end end' eof r p s p' s' np ns np' ns' bp bs bp' bs' = (
  start_reports zmq end eof r p s p' s' np ns bp bs,
  start_reports zmq' end' eof r p' s' p' s' np' ns' bp' bs',
)
