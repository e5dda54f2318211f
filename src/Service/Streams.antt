-- ===== src/Service/Streams.antt =====
-- The stream client of a twin: `DTSession._init_twin`, src/digitaltwin/service/session.py, opens one
-- under the id of the twin, src/digitaltwin/streaming.py, which the plugin has checked,
-- src/digitaltwin/service/plugin.py.
use digital_twin_framework.Prelude.{
  Text, [], true, Option, some, ok, done, nat_eq, list_eq, ◌≡◌, refl, arith, list_beq,
}
use digital_twin_framework.Stream.Address.{Environment, stream_addresses}
use digital_twin_framework.Stream.Topic.{check_namespace}
use digital_twin_framework.Stream.Backend
use digital_twin_framework.Stream.Backend.{connected, init}
use digital_twin_framework.Stream.Client.{Client, new_client}
use digital_twin_framework.Stream.Client.Consistent.{IsConsistent}
use digital_twin_framework.Stream.Client.Delivery.{new_client-IsConsistent}
use digital_twin_framework.Stream.Client.Delivery.Subscribing.{IsOpen}
use digital_twin_framework.Stream.Endpoint
use digital_twin_framework.Stream.Endpoint.{
  Opening, connect_stream_client, resolve, connect_backend,
}
use digital_twin_framework.Service.Plugin.{twin_id_ok}

id-is_namespace : (i : Text) → twin_id_ok i ≡ true → check_namespace i ≡ ok tt
unfolding twin_id_ok check_namespace
id-is_namespace i h = ground arith

-- The client that a twin gets.
connected_client : {P : Type 0} → Environment → Text → Option Text → Option Text → Client P
unfolding stream_addresses Backend.connect init
connected_client env i pub_addr sub_addr =
    let (p, s) = stream_addresses env pub_addr sub_addr in
    record {
      namespace = i;
      backend = (Backend.connect connected connected (init (some p) (some s))).1;
      subscriptions = [];
      channels = [];
    }

made_client :
    {P : Type 0} (env : Environment) (i : Text) (pub_addr sub_addr : Option Text)
    → check_namespace i ≡ ok tt
    → new_client (connected_client {P = P} env i pub_addr sub_addr).backend i
      ≡ ok (connected_client {P = P} env i pub_addr sub_addr)
unfolding new_client connected_client
made_client env i pub_addr sub_addr h = rw h refl

-- Every twin id that the plugin accepts is a namespace that the streaming layer accepts: with a broker
-- that can be reached, the twin gets a client under its id, connected, open and consistent, and the
-- transport is the client's.
pub accepted_twin_connects :
    {P : Type 0} (env : Environment) (i : Text) (pub_addr sub_addr : Option Text)
    → twin_id_ok i ≡ true
    → (c : Client P) × (connect_stream_client env connected connected i pub_addr sub_addr
        ≡ record { status = done; opened = some c; transport = some c.backend })
      × (c.namespace ≡ i)
      × IsOpen c.backend
      × IsConsistent c
unfolding connected_client connect_stream_client Endpoint.connect resolve connect_backend new_client
    stream_addresses Backend.connect init list_beq
accepted_twin_connects {P} env i pub_addr sub_addr h =
    let named = id-is_namespace i h in
    (
      connected_client env i pub_addr sub_addr,
      rw named refl,
      refl,
      record { not_closed = refl; subscriber = refl; is_running = refl },
      new_client-IsConsistent _ i refl refl (made_client env i pub_addr sub_addr named),
    )
