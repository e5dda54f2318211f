-- ===== src/Stream/Endpoint.antt =====
-- Endpoints as plain data, and publishers of channels: `PubSubConfig`, `ChannelPublisher` and
-- `connect_stream_client` of src/digitaltwin/streaming.py.
pub mod Channels
pub mod Reopening
use digital_twin_framework.Prelude.{
  Text, codes, Bool, true, false, not, Option, none, some, Result, ok, raise, Error, value_error,
  assertion_error, Status, done, raised, waiting, ◌==◌, nat_eq, list_eq, ◌>>=◌, ◌>>◌, if◌then◌else◌,
  get_or_else,
}
use digital_twin_framework.Stream.Address.{Environment, stream_addresses}
use digital_twin_framework.Stream.Codec.{Coders, check_codec, encode_payload}
use digital_twin_framework.Stream.Topic.{check_channel}
use digital_twin_framework.Stream.Backend
use digital_twin_framework.Stream.Backend.{Backend, Attempt, init, raw}
use digital_twin_framework.Stream.Client.{Callback, Client, new_client}

-- `ZMQ_PS_Client.kind`, which the class takes from `PubSubBackend`.
abbrev pub backend_kind : Text
backend_kind = codes "generic"

pub record PubSubConfig : Type 0 where
  pub namespace : Option Text
  pub pub_addr : Option Text
  pub sub_addr : Option Text
  pub kind : Text

unfoldable pub resolve : Environment → Option Text → Option Text → Option Text → PubSubConfig
unfolding stream_addresses
resolve env namespace pub_addr sub_addr =
    let (p, s) = stream_addresses env pub_addr sub_addr in
    record { namespace = namespace; pub_addr = some p; sub_addr = some s; kind = backend_kind }

-- How a call ended that opens something over a transport: with what was opened, if it returned, and
-- with the transport that was made, if one was.
pub record Opening (A C P : Type 0) : Type 0 where
  pub status : Status
  pub opened : Option A
  pub transport : Option (Backend C P)

pub record Publisher (C P : Type 0) : Type 0 where
  pub backend : Backend C P
  pub channel : Text
  pub codec : Text

module _ {C P : Type 0} where
  tried : Status × Backend C P → Opening (Backend C P) C P
  tried (done, b) = record { status = done; opened = some b; transport = some b }
  tried (raised e, b) = record { status = raised e; opened = none; transport = some b }
  tried (waiting, b) = record { status = waiting; opened = none; transport = some b }

  -- `connect_backend`, on how the two connections turn out.
  unfoldable pub connect_backend : Attempt → Attempt → PubSubConfig → Opening (Backend C P) C P
  unfolding tried
  connect_backend sub_attempt pub_attempt cfg =
      if not (cfg.kind == backend_kind)
      then record { status = raised value_error; opened = none; transport = none }
      else tried (Backend.connect sub_attempt pub_attempt (init cfg.pub_addr cfg.sub_addr))

  -- A constructor over a transport that was opened; what it raises leaves the transport as it is.
  made : {A : Type 0} → Result A → Option (Backend C P) → Opening A C P
  made (ok a) b = record { status = done; opened = some a; transport = b }
  made (raise e) b = record { status = raised e; opened = none; transport = b }

  wrapped :
      {A : Type 0}
      → (Backend C P → Result A)
      → Opening (Backend C P) C P
      → Option (Backend C P)
      → Opening A C P
  unfolding made
  wrapped new o none = record { status = o.status; opened = none; transport = o.transport }
  wrapped new o (some b) = made (new b) o.transport

  -- `ChannelPublisher.__init__`
  unfoldable pub new_publisher : Text → Text → Backend C P → Result (Publisher C P)
  new_publisher channel codec b = (check_channel channel >> check_codec codec) >>= λ u.
      ok (record { backend = b; channel = channel; codec = codec })

  -- `ChannelPublisher.open`, for the configuration given or the environment's.
  unfoldable pub open_publisher :
      Environment
      → Attempt
      → Attempt
      → Text
      → Text
      → Option PubSubConfig
      → Opening (Publisher C P) C P
  unfolding wrapped connect_backend new_publisher resolve
  open_publisher env sub_attempt pub_attempt channel codec config =
      let cfg = get_or_else config (resolve env none none none) in
      let o = connect_backend sub_attempt pub_attempt cfg in
      wrapped (new_publisher channel codec) o o.opened

  unfoldable pub close : Publisher C P → Publisher C P
  close x = record x { backend = Backend.close x.backend }

module _ {P : Type 0} where
  connect_as : Option Text → Attempt → Attempt → PubSubConfig → Opening (Client P) Callback P
  unfolding wrapped connect_backend
  connect_as none sub_attempt pub_attempt cfg = record {
    status = raised assertion_error;
    opened = none;
    transport = none;
  }
  connect_as (some ns) sub_attempt pub_attempt cfg =
      let o = connect_backend sub_attempt pub_attempt cfg in
      wrapped (λ b. new_client b ns) o o.opened

  -- `PubSubConfig.connect`
  unfoldable pub connect : Attempt → Attempt → PubSubConfig → Opening (Client P) Callback P
  unfolding connect_as
  connect sub_attempt pub_attempt cfg = connect_as cfg.namespace sub_attempt pub_attempt cfg

  unfoldable pub connect_stream_client :
      Environment
      → Attempt
      → Attempt
      → Text
      → Option Text
      → Option Text
      → Opening (Client P) Callback P
  unfolding connect resolve
  connect_stream_client env sub_attempt pub_attempt namespace pub_addr sub_addr =
      connect sub_attempt pub_attempt (resolve env (some namespace) pub_addr sub_addr)

module _ {C M P : Type 0} (lib : Coders M P) where
  send : Result P → Publisher C P → Status × Publisher C P
  send (raise e) x = (raised e, x)
  send (ok p) x =
      let (st, b) = Backend.publish lib x.channel (raw p) x.backend in
      (st, record x { backend = b })

  -- `ChannelPublisher.publish`
  unfoldable pub publish : M → Publisher C P → Status × Publisher C P
  unfolding send
  publish m x = send (encode_payload lib m x.codec) x
