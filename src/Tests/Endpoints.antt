-- ===== src/Tests/Endpoints.antt =====
-- A broker that fails and starts, and a publisher with a twin that listens to its channel.
use digital_twin_framework.Prelude.{
  ℕ, codes, true, false, List, [], ◌∷◌, ◌++◌, none, some, ok, raise, done, raised, runtime_error,
  value_error, contains, nat_eq, list_eq, list_beq, ◌≡◌, ◌>>◌, refl, starts_with, if◌then◌else◌,
  ◌==◌,
}
use digital_twin_framework.Dtype.{Dtype, plain}
use digital_twin_framework.Dtype.Equality.{dtype_has_eq}
use digital_twin_framework.Stream.Codec.{Coders, IsKept, codec_json, check_codec, encode_payload}
use digital_twin_framework.Stream.Topic.{topic, check_namespace, check_channel}
use digital_twin_framework.Stream.Address.{Environment}
use digital_twin_framework.Stream.Broker.{
  lost, silent, bound, Spawn, System, Resistance, terminates, killed, survives,
}
use digital_twin_framework.Stream.Broker.Reaped.{Call, starting, stopping, crashing}
use digital_twin_framework.Stream.Backend
use digital_twin_framework.Stream.Backend.{Backend, connected}
use digital_twin_framework.Stream.Client.{
  Callback, Client, new_client, receive, subscribe_to_channel, subscribe_to_dtype,
}
use digital_twin_framework.Stream.Client.Consistent.{IsConsistent}
use digital_twin_framework.Stream.Client.Delivery.{
  new_client-IsConsistent, subscribe_channel, apply_all,
}
use digital_twin_framework.Stream.Client.Delivery
use digital_twin_framework.Stream.Client
use digital_twin_framework.Stream.Client.Configured.{config}
use digital_twin_framework.Stream.Endpoint.Reopening.Shipped.{shipped_client_delivers}
use digital_twin_framework.Stream.Client.Delivery.Subscribing.{IsOpen}
use digital_twin_framework.Stream.Endpoint.{
  backend_kind, PubSubConfig, Publisher, open_publisher, publish, connect, connect_backend,
}
use digital_twin_framework.Stream.Endpoint.Channels.{refused_open_leaks, channel_roundtrip}

-- One process is slow to bind and survives a `kill`; one dies, and one binds.
abbrev system : Spawn → Resistance → System
system w r = record { spawns = λ asked. w; resists = r }

abbrev broker_calls : List Call
broker_calls =
    starting (system silent survives)
    ∷ starting (system (lost runtime_error) terminates)
    ∷ starting (system (bound (codes "p") (codes "s")) terminates)
    ∷ crashing
    ∷ stopping killed
    ∷ starting (system (bound (codes "p") (codes "s")) terminates)
    ∷ []

-- 7 stands for an object that json changes.
abbrev numbers : Coders ℕ ℕ
numbers = record {
  json_dumps = λ m. ok (if m == 7 then 8 else m);
  json_loads = λ p. ok p;
  pickle_dumps = λ m. ok m;
  pickle_loads = λ p. ok p;
  to_bytes = λ m. ok m;
  of_bytes = λ p. p;
}

five-IsKept : IsKept numbers codec_json 5
five-IsKept p = (λ e h. cc, λ e h. cc, λ e h. cc)

abbrev online : Backend Callback ℕ
online = record {
  pub_addr = some (codes "p");
  sub_addr = some (codes "s");
  has_pub = true;
  has_sub = true;
  options = [];
  topics = [];
  raw_topics = [];
  receiving = true;
  closed = false;
  running = true;
  sent = [];
}

abbrev twin_a : Client ℕ
twin_a = record { namespace = codes "a"; backend = online; subscriptions = []; channels = [] }

twin_a-IsConsistent : IsConsistent twin_a
unfolding new_client check_namespace
twin_a-IsConsistent = new_client-IsConsistent online (codes "a") refl refl refl

online-IsOpen : IsOpen online
online-IsOpen = record { not_closed = refl; subscriber = refl; is_running = refl }

abbrev heat : Dtype
heat = plain (codes "heat")

abbrev sensor : Publisher Callback ℕ
sensor = record { backend = online; channel = codes "sensor"; codec = codec_json }

sensor_ok : check_channel (codes "sensor") ≡ ok tt
unfolding check_channel starts_with
sensor_ok = refl

sensor_publishes : (publish numbers 5 sensor).0 ≡ done
unfolding publish encode_payload check_codec Backend.publish list_beq
sensor_publishes = refl

channel_roundtrip_example :
    ((subscribe_to_channel (codes "sensor") heat 8 codec_json twin_a).0 ≡ done)
    × ((p : ℕ) × ((publish numbers 5 sensor).1.backend.sent ≡ [] ++ ((codes "sensor", p) ∷ []))
        × (receive numbers
              (subscribe_to_channel (codes "sensor") heat 8 codec_json twin_a).1
              (codes "sensor")
              p
              []
            ≡ receive numbers twin_a (codes "sensor") p [] ++ ((8, heat, 5) ∷ [])))
channel_roundtrip_example =
    channel_roundtrip numbers sensor 5 twin_a heat 8 [] five-IsKept twin_a-IsConsistent
      online-IsOpen refl sensor_ok sensor_publishes

abbrev twin_config : PubSubConfig
twin_config = record {
  namespace = some (codes "a");
  pub_addr = some (codes "p");
  sub_addr = some (codes "s");
  kind = backend_kind;
}

abbrev opened_twin : Client ℕ
opened_twin = record twin_a { backend = record online { receiving = true } }

abbrev bound_sensor : List Delivery.Call
bound_sensor = subscribe_channel (codes "sensor") heat 8 codec_json ∷ []

twin_opens : (connect {P = ℕ} connected connected twin_config).opened ≡ some opened_twin
unfolding connect Backend.connect Backend.init list_beq connect_backend new_client check_namespace
twin_opens = refl

bound_sensor-IsOpen : IsOpen (apply_all bound_sensor opened_twin).backend
unfolding apply_all subscribe_to_channel check_channel check_codec list_beq starts_with
    Backend.subscribe
bound_sensor-IsOpen = record { not_closed = refl; subscriber = refl; is_running = refl }

not_subscribed : contains (apply_all bound_sensor opened_twin).subscriptions heat ≡ false
unfolding apply_all subscribe_to_channel check_channel check_codec list_beq starts_with
    Backend.subscribe
not_subscribed = refl

shipped_client_delivers_example :
    (config (apply_all bound_sensor opened_twin) ≡ twin_config)
    × (c' : Client ℕ) × ((connect connected connected
          (config (apply_all bound_sensor opened_twin))).opened
        ≡ some c')
    × ((Client.publish numbers heat 5 c').0 ≡ done)
    × ((Client.publish numbers heat 5 c').1.backend.sent ≡ (topic c'.namespace heat, 5) ∷ [])
    × (receive numbers
          (subscribe_to_dtype heat 9 (apply_all bound_sensor opened_twin)).1
          (topic c'.namespace heat)
          5
          []
        ≡ receive numbers (apply_all bound_sensor opened_twin) (topic c'.namespace heat) 5 []
          ++ ((9, heat, 5) ∷ []))
shipped_client_delivers_example =
    shipped_client_delivers numbers connected connected twin_config opened_twin bound_sensor
      (codes "p") heat 9 5 5 [] twin_opens refl bound_sensor-IsOpen not_subscribed refl refl

abbrev nowhere : Environment
nowhere = record { pub_addr = none; sub_addr = none }

abbrev endpoint : PubSubConfig
endpoint = record {
  namespace = none;
  pub_addr = some (codes "p");
  sub_addr = some (codes "s");
  kind = backend_kind;
}

no_channel : (check_channel [] >> check_codec codec_json) ≡ raise value_error
unfolding check_channel
no_channel = refl

refused_open_leaks_example :
    (b : Backend Callback ℕ) × (open_publisher nowhere connected connected [] codec_json
        (some endpoint)
      ≡ record { status = raised value_error; opened = none; transport = some b })
    × (b.closed ≡ false)
    × (b.running ≡ true)
    × (b.receiving ≡ true)
refused_open_leaks_example =
    refused_open_leaks nowhere [] codec_json (codes "p") (codes "s") none value_error no_channel
