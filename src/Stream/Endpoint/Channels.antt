-- ===== src/Stream/Endpoint/Channels.antt =====
-- From a publisher of a channel to the queue that the channel feeds.
-- src/digitaltwin/streaming.py.
use digital_twin_framework.Prelude.{
  ℕ, Text, true, false, List, [], ◌∷◌, ◌++◌, contains, Option, none, some, Result, ok, raise, Error,
  done, raised, ==_refl, nat_eq, list_eq, pair_eq, ◌>>◌, ◌≡◌, refl, arith, lookup-insert,
  is_ok_of_eq, Bool-cases, inl, inr, list_beq,
}
use digital_twin_framework.Dtype.{Dtype}
use digital_twin_framework.Dtype.Equality.{dtype_has_eq}
use digital_twin_framework.Stream.Address.{Environment}
use digital_twin_framework.Stream.Codec.{
  Coders, IsKept, check_codec, encode_payload, decode-encode_payload,
}
use digital_twin_framework.Stream.Topic.{check_channel}
use digital_twin_framework.Stream.Backend
use digital_twin_framework.Stream.Backend.{
  Backend, Attempt, connected, init, raw, payload, message, Incoming,
}
use digital_twin_framework.Stream.Client.{
  Callback, external, Client, Put, subscribe_to_channel, receive, receive_data, put_decoded,
}
use digital_twin_framework.Stream.Client.Consistent.{callbacks, IsConsistent}
use digital_twin_framework.Stream.Client.Delivery.Subscribing.{IsOpen}
use digital_twin_framework.Stream.Endpoint.{
  backend_kind, Publisher, connect_backend, tried, made, wrapped, new_publisher, open_publisher,
  publish, send,
}

-- With two addresses that can be reached, a channel name or a codec that is refused is refused only
-- after the transport was connected: the caller gets the exception and no publisher, and the transport
-- is left connected and not closed.
pub refused_open_leaks :
    {C P : Type 0}
    → (env : Environment) (channel codec p s : Text) (ns : Option Text) (e : Error)
    → (check_channel channel >> check_codec codec) ≡ raise e
    → (b : Backend C P) × ((open_publisher env connected connected channel codec (
          some
            (record { namespace = ns; pub_addr = some p; sub_addr = some s; kind = backend_kind })))
        ≡ record { status = raised e; opened = none; transport = some b })
      × (b.closed ≡ false)
      × (b.running ≡ true)
      × (b.receiving ≡ true)
unfolding open_publisher connect_backend tried wrapped made new_publisher Backend.connect init
    list_beq
refused_open_leaks env channel codec p s ns e h =
    ((Backend.connect connected connected (init (some p) (some s))).1, rw h refl, refl, refl, refl)

module _ {M P : Type 0} (lib : Coders M P) where
  callbacks-bound :
      (c : Client P) (channel : Text) (d : Dtype) (q : ℕ) (codec : Text)
      → IsOpen c.backend
      → contains c.channels (channel, d) ≡ false
      → check_channel channel ≡ ok tt
      → check_codec codec ≡ ok tt
      → (callbacks (subscribe_to_channel channel d q codec c).1.backend channel
          ≡ callbacks c.backend channel ++ (external channel d q codec ∷ []))
        × (contains (subscribe_to_channel channel d q codec c).1.backend.raw_topics channel ≡ true)
        × ((subscribe_to_channel channel d q codec c).0 ≡ done)
  unfolding subscribe_to_channel Backend.subscribe
  callbacks-bound c channel d q codec o new k l = ground (
    arith,
    ==_refl channel,
    lookup-insert channel channel (callbacks c.backend channel ++ (external channel d q codec ∷ []))
        c.backend.topics,
  )

  run_callbacks-append :
      (xs ys : List Callback) (x : Incoming M P) (puts : List (Put M))
      → Backend.run_callbacks lib (receive_data lib) (xs ++ ys) x puts
        ≡ Backend.run_callbacks lib
            (receive_data lib)
            ys
            x
            (Backend.run_callbacks lib (receive_data lib) xs x puts)
  unfolding Backend.run_callbacks
  run_callbacks-append [] ys x puts = refl
  run_callbacks-append (cb ∷ xs) ys x puts = run_callbacks-append xs ys x _

  -- A raw topic's frame goes to its callbacks as it is.
  receive_raw :
      (c : Client P) (t : Text) (p : P) (puts : List (Put M))
      → contains c.backend.raw_topics t ≡ true
      → receive lib c t p puts
        ≡ Backend.run_callbacks lib (receive_data lib) (callbacks c.backend t) (payload p) puts
  unfolding receive Backend.receive
  receive_raw c t p puts h = rw h refl

  receive_channel :
      (c : Client P) (t : Text) (p : P) (puts : List (Put M))
      → IsConsistent c
      → check_channel t ≡ ok tt
      → receive lib c t p puts
        ≡ Backend.run_callbacks lib (receive_data lib) (callbacks c.backend t) (payload p) puts
  unfolding receive Backend.receive Backend.run_callbacks
  receive_channel c t p puts h k = elim (Bool-cases (contains c.backend.raw_topics t)) [
    | inl r ↦ receive_raw c t p puts r
    | inr r ↦
        let empty : callbacks c.backend t ≡ [] =
          ground (arith, h.routed.raw_all t, is_ok_of_eq (check_channel t) k) in
        rw (empty, r) ground arith
  ]

  -- The frame that a publish hands to the transport.
  published :
      {C : Type 0} (x : Publisher C P) (m : M)
      → (publish lib m x).0 ≡ done
      → (p : P) × (encode_payload lib m x.codec ≡ ok p)
        × ((publish lib m x).1.backend.sent ≡ x.backend.sent ++ ((x.channel, p) ∷ []))
  unfolding publish send Backend.publish
  published x m h = go (encode_payload lib m x.codec) h
    where
      go :
          (r : Result P)
          → (send lib r x).0 ≡ done
          → (p : P) × (r ≡ ok p)
            × ((send lib r x).1.backend.sent ≡ x.backend.sent ++ ((x.channel, p) ∷ []))
      go (raise e) k = cc
      go (ok p) k = (p, refl, ground arith)

  codec_known :
      (m : M) (codec : Text) (p : P) → encode_payload lib m codec ≡ ok p → check_codec codec ≡ ok tt
  unfolding encode_payload check_codec
  codec_known m codec p h = ground arith

  -- What an external publisher sends on a channel arrives: a message that the library behind
  -- the publisher's codec keeps, and that the publisher publishes, leaves as one frame, and a twin's open client that
  -- binds the channel to a data type for the first time, with the publisher's codec, puts that frame's
  -- message into the queue given, after whatever it put before.
  pub channel_roundtrip :
      {C : Type 0} (x : Publisher C P) (m : M) (c : Client P) (d : Dtype) (q : ℕ)
      (puts : List (Put M))
      → IsKept lib x.codec m
      → IsConsistent c
      → IsOpen c.backend
      → contains c.channels (x.channel, d) ≡ false
      → check_channel x.channel ≡ ok tt
      → (publish lib m x).0 ≡ done
      → ((subscribe_to_channel x.channel d q x.codec c).0 ≡ done)
        × ((p : P) × ((publish lib m x).1.backend.sent ≡ x.backend.sent ++ ((x.channel, p) ∷ []))
            × (receive lib (subscribe_to_channel x.channel d q x.codec c).1 x.channel p puts
                ≡ receive lib c x.channel p puts ++ ((q, d, m) ∷ [])))
  unfolding Backend.run_callbacks receive_data put_decoded
  channel_roundtrip x m c d q puts kept h o new k sent =
      let (p, e, s) = published x m sent in
      let (cbs, is_raw, ended) =
        callbacks-bound c x.channel d q x.codec o new k (codec_known m x.codec p e) in
      let decoded = decode-encode_payload lib m x.codec p kept e in
      (
        ended,
        (
          p,
          s,
          rw
              (
                receive_raw (subscribe_to_channel x.channel d q x.codec c).1 x.channel p puts
                    is_raw,
                cbs,
                run_callbacks-append,
                receive_channel c x.channel p puts h k,
                decoded,
              )
              refl,
        ),
      )
