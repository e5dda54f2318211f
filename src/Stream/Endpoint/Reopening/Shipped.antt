-- ===== src/Stream/Endpoint/Reopening/Shipped.antt =====
-- A process that gets the configuration of a twin's client, opens its own client and publishes: the
-- use that src/digitaltwin/streaming.py describes at `PubSubConfig`.
use digital_twin_framework.Prelude.{
  ℕ, Text, List, [], ◌∷◌, ◌++◌, Option, none, some, ok, done, false, contains, nat_eq, list_eq, ◌≡◌,
  refl, arith, ap,
}
use digital_twin_framework.Dtype.{Dtype}
use digital_twin_framework.Dtype.Equality.{dtype_has_eq}
use digital_twin_framework.Stream.Topic.{topic, check_namespace}
use digital_twin_framework.Stream.Codec.{Coders}
use digital_twin_framework.Stream.Backend
use digital_twin_framework.Stream.Backend.{Attempt, connected, init}
use digital_twin_framework.Stream.Client.{
  Client, Put, new_client, publish, receive, subscribe_to_dtype,
}
use digital_twin_framework.Stream.Client.Consistent.{IsConsistent}
use digital_twin_framework.Stream.Client.Configured.{config, apply_all-config}
use digital_twin_framework.Stream.Client.Delivery.{
  Call, apply_all, new_client-IsConsistent, apply_all-IsConsistent,
}
use digital_twin_framework.Stream.Client.Delivery.Subscribing.{IsOpen, receive-subscribe_to_dtype}
use digital_twin_framework.Stream.Endpoint.{PubSubConfig, Opening, connect}
use digital_twin_framework.Stream.Endpoint.Reopening.{ready, fresh, opened_from, reopened_as_new}

module _ {P : Type 0} where
  fresh-IsConsistent :
      (n : Text) (p s : Option Text) (c : Client P)
      → check_namespace n ≡ ok tt
      → c ≡ fresh n p s
      → IsConsistent c
  unfolding fresh ready init Backend.connect new_client
  fresh-IsConsistent n p s c h is =
      new_client-IsConsistent (ready p s) n (go p s) (go_raw p s) (rw (h, is) refl)
    where
      go : (p s : Option Text) → (ready {P = P} p s).topics ≡ []
      go none none = refl
      go none (some s) = refl
      go (some p) none = refl
      go (some p) (some s) = refl

      go_raw : (p s : Option Text) → (ready {P = P} p s).raw_topics ≡ []
      go_raw none none = refl
      go_raw none (some s) = refl
      go_raw (some p) none = refl
      go_raw (some p) (some s) = refl

module _ {M P : Type 0} (lib : Coders M P) where
  fresh-publishes :
      (n addr : Text) (s : Option Text) (d : Dtype) (m : M) (p : P)
      → lib.pickle_dumps m ≡ ok p
      → ((publish lib d m (fresh n (some addr) s)).0 ≡ done)
        × ((publish lib d m (fresh n (some addr) s)).1.backend.sent ≡ (topic n d, p) ∷ [])
  unfolding fresh ready init Backend.connect publish Backend.publish
  fresh-publishes n addr none d m p h = (rw h refl, rw h refl)
  fresh-publishes n addr (some s) d m p h = (rw h refl, rw h refl)

  -- A twin's endpoint can be shipped as plain data. Take a client that was opened from a configuration
  -- with a publishing address, and that, after any calls, is still open and not subscribed to a data
  -- type, and a message that pickles and unpickles again. The client reports the configuration that it
  -- was opened from, which opens another client, once the broker can be reached; the message, published
  -- there under the data type, leaves as one frame, on a topic of that client's namespace; and once the
  -- first client has subscribed to the data type, that frame puts the message into the queue given,
  -- after what it put before.
  pub shipped_client_delivers :
      (a b : Attempt) (cfg : PubSubConfig) (c : Client P) (xs : List Call) (addr : Text) (d : Dtype)
      (q : ℕ) (m : M) (p : P) (puts : List (Put M))
      → (connect a b cfg).opened ≡ some c
      → cfg.pub_addr ≡ some addr
      → IsOpen (apply_all xs c).backend
      → contains (apply_all xs c).subscriptions d ≡ false
      → lib.pickle_dumps m ≡ ok p
      → lib.pickle_loads p ≡ ok m
      → (config (apply_all xs c) ≡ cfg)
        × (c' : Client P) × ((connect connected connected (config (apply_all xs c))).opened
            ≡ some c')
        × ((publish lib d m c').0 ≡ done)
        × ((publish lib d m c').1.backend.sent ≡ (topic c'.namespace d, p) ∷ [])
        × (receive lib (subscribe_to_dtype d q (apply_all xs c)).1 (topic c'.namespace d) p puts
            ≡ receive lib (apply_all xs c) (topic c'.namespace d) p puts ++ ((q, d, m) ∷ []))
  unfolding config fresh apply_all
  shipped_client_delivers a b cfg c xs addr d q m p puts h reach o new e back =
      let (n, named, kind, legal, is) =
        opened_from a b cfg.namespace cfg.pub_addr cfg.sub_addr cfg.kind c h in
      let same : (apply_all xs c).namespace ≡ c.namespace = ground (arith, apply_all-config xs c) in
      let consistent =
        apply_all-IsConsistent xs c (fresh-IsConsistent n cfg.pub_addr cfg.sub_addr c legal is) in
      let sends = fresh-publishes n addr cfg.sub_addr d m p e in
      let arrives =
        receive-subscribe_to_dtype lib (apply_all xs c) d q p m puts consistent o new back in
      let (reports, reopens) = reopened_as_new a b cfg c xs h in
      (
        reports,
        c,
        ap Opening.opened reopens,
        rw (is, reach) sends.0,
        rw (is, reach) sends.1,
        rw same at arrives.1,
      )
