-- ===== src/Stream/Client.antt =====
-- The namespaced client `PubSubClient` of src/digitaltwin/streaming.py, over the transport client.
pub mod Configured
pub mod Consistent
pub mod Delivery
use digital_twin_framework.Prelude.{
  ℕ, Text, Bool, true, false, ◌||◌, not, ◌==◌, nat_eq, list_eq, pair_eq, List, [], ◌∷◌, ◌++◌,
  contains, discard, Option, none, some, Result, ok, raise, ◌>>=◌, ◌>>◌, Status, done, raised,
  waiting, ◌≡◌, refl, arith, if◌then◌else◌,
}
use digital_twin_framework.Dtype.{Dtype}
use digital_twin_framework.Dtype.Equality.{dtype_has_eq}
use digital_twin_framework.Stream.Codec.{Coders, codec_raw, check_codec, decode_payload}
use digital_twin_framework.Stream.Topic.{check_namespace, check_channel, topic}
use digital_twin_framework.Stream.Backend
use digital_twin_framework.Stream.Backend.{
  Backend, Incoming, payload, message, Outgoing, object, raw,
}

-- The two closures `receive_data`: for a data type's own topic, and for an external channel. The
-- number names the queue.
pub data Callback : Type 0 where
  internal : Dtype → ℕ → Callback
  external : Text → Dtype → ℕ → Text → Callback

pub record Client (P : Type 0) : Type 0 where
  pub namespace : Text
  pub backend : Backend Callback P
  pub subscriptions : List Dtype
  pub channels : List (Text × Dtype)

-- What lands in the queues, in order: the queue and the `TypedData`.
abbrev pub Put : Type 0 → Type 0
Put M = ℕ × Dtype × M

module _ {P : Type 0} where
  unfoldable pub new_client : Backend Callback P → Text → Result (Client P)
  new_client b ns = do
    check_namespace ns
    ok (record { namespace = ns; backend = b; subscriptions = []; channels = [] })

  -- What a call of the backend leaves.
  abbrev pub with_backend : Client P → Status × Backend Callback P → Status × Client P
  with_backend c (st, b) = (st, record c { backend = b })

  -- The rest of a subscription from its call of the transport on. One that waits has made its entry
  -- already, and goes on from here when the transport runs.
  abbrev pub resume_channel : Text → Dtype → ℕ → Text → Client P → Status × Client P
  resume_channel channel d q codec c =
      with_backend c (Backend.subscribe channel (external channel d q codec) true c.backend)

  abbrev pub resume_dtype : Dtype → ℕ → Client P → Status × Client P
  resume_dtype d q c =
      with_backend c (Backend.subscribe (topic c.namespace d) (internal d q) false c.backend)

  subscribe_checked : Text → Dtype → ℕ → Text → Client P → Status × Client P
  subscribe_checked channel d q codec c =
      if contains c.channels (channel, d)
      then (done, c)
      else resume_channel channel d q codec (record c { channels = (channel, d) ∷ c.channels })

  -- A check that raises changes nothing.
  checked : Result (Unit {0}) → Client P → Status × Client P → Status × Client P
  checked (ok _) c next = next
  checked (raise e) c next = (raised e, c)

  unfoldable pub subscribe_to_channel : Text → Dtype → ℕ → Text → Client P → Status × Client P
  unfolding subscribe_checked checked
  subscribe_to_channel channel d q codec c =
      checked (check_channel channel >> check_codec codec) c (subscribe_checked channel d q codec c)

  unfoldable pub unsubscribe_channel : Text → Dtype → Client P → Client P
  unsubscribe_channel channel d c =
      if contains c.channels (channel, d)
      then record c {
        channels = discard c.channels (channel, d);
        backend = Backend.unsubscribe channel c.backend;
      }
      else c

  unfoldable pub subscribe_to_dtype : Dtype → ℕ → Client P → Status × Client P
  subscribe_to_dtype d q c =
      if contains c.subscriptions d
      then (done, c)
      else resume_dtype d q (record c { subscriptions = d ∷ c.subscriptions })

  unfoldable pub unsubscribe_dtype : Dtype → Client P → Client P
  unsubscribe_dtype d c =
      if contains c.subscriptions d
      then record c {
        subscriptions = discard c.subscriptions d;
        backend = Backend.unsubscribe (topic c.namespace d) c.backend;
      }
      else c

  -- The two loops of `close`, over copies of the sets.
  drop_dtypes : List Dtype → Client P → Client P
  drop_dtypes [] c = c
  drop_dtypes (d ∷ ds) c = drop_dtypes ds (unsubscribe_dtype d c)

  drop_channels : List (Text × Dtype) → Client P → Client P
  drop_channels [] c = c
  drop_channels ((channel, d) ∷ cs) c = drop_channels cs (unsubscribe_channel channel d c)

  close_backend : Client P → Client P
  close_backend c = record c { backend = Backend.close c.backend }

  unfoldable pub close : Client P → Client P
  unfolding drop_dtypes drop_channels close_backend
  close c = let c' = drop_dtypes c.subscriptions c in close_backend (drop_channels c'.channels c')

module _ {M P : Type 0} (lib : Coders M P) where
  unfoldable pub publish : Dtype → M → Client P → Status × Client P
  publish d m c = with_backend c (Backend.publish lib (topic c.namespace d) (object m) c.backend)

  -- An undecodable payload is dropped.
  unfoldable pub put_decoded : ℕ → Dtype → Result M → List (Put M) → List (Put M)
  put_decoded q d (ok m) puts = puts ++ ((q, d, m) ∷ [])
  put_decoded q d (raise e) puts = puts

  -- An internal callback puts what it is handed. An external one that is handed an object passes
  -- it through the `raw` codec, and the other codecs fail on it.
  unfoldable pub receive_data :
      Callback → Incoming M P → List (Put M) → Result (Unit {0}) × List (Put M)
  unfolding put_decoded
  receive_data (internal d q) (message m) puts = (ok tt, puts ++ ((q, d, m) ∷ []))
  receive_data (internal d q) (payload p) puts = (ok tt, puts ++ ((q, d, lib.of_bytes p) ∷ []))
  receive_data (external channel d q codec) (payload p) puts =
      (ok tt, put_decoded q d (decode_payload lib p codec) puts)
  receive_data (external channel d q codec) (message m) puts =
      (ok tt, if codec == codec_raw then puts ++ ((q, d, m) ∷ []) else puts)

  -- A frame as the client's queues see it.
  unfoldable pub receive : Client P → Text → P → List (Put M) → List (Put M)
  receive c t p puts = Backend.receive lib receive_data c.backend t p puts
