-- ===== src/Stream/Client/Delivery/Subscribing.antt =====
-- What a subscription and an unsubscription change in what is delivered. `PubSubClient`,
-- src/digitaltwin/streaming.py.
use digital_twin_framework.Prelude.{
  ℕ, Text, true, false, ==_refl, nat_eq, list_eq, pair_eq, List, [], ◌∷◌, ◌++◌, contains, ok, done,
  ◌≡◌, ap, ◌≢◌, refl, arith, lookup-insert, lookup-erase, contains-discard_ne, append_assoc,
}
use digital_twin_framework.Dtype.{Dtype}
use digital_twin_framework.Dtype.Equality.{dtype_has_eq}
use digital_twin_framework.Stream.Codec.{Coders}
use digital_twin_framework.Stream.Topic.{topic}
use digital_twin_framework.Stream.Backend
use digital_twin_framework.Stream.Backend.{Backend, Attempt, message, payload}
use digital_twin_framework.Stream.Client.{
  Callback, internal, external, Client, Put, subscribe_to_channel, unsubscribe_channel,
  subscribe_to_dtype, receive,
}
use digital_twin_framework.Stream.Client.Consistent.{
  callbacks, IsConsistent, subscribe_to_dtype-IsConsistent,
}
use digital_twin_framework.Stream.Client.Delivery.{deliveries, delivery_exact}

-- The transport is connected, open and able to subscribe.
pub record IsOpen {P : Type 0} (b : Backend Callback P) : Type 0 where
  pub not_closed : b.closed ≡ false
  pub subscriber : b.has_sub ≡ true
  pub is_running : b.running ≡ true

deliveries-append :
    {M : Type 0} (m : M) (xs ys : List Callback)
    → deliveries m (xs ++ ys) ≡ deliveries m xs ++ deliveries m ys
unfolding deliveries
deliveries-append m [] ys = refl
deliveries-append m (internal d q ∷ xs) ys = ap (◌∷◌ (q, d, m)) (deliveries-append m xs ys)
deliveries-append m (external channel d q codec ∷ xs) ys = deliveries-append m xs ys

module _ {M P : Type 0} (lib : Coders M P) where
  callbacks-fresh :
      (c : Client P) (d : Dtype) (q : ℕ)
      → IsOpen c.backend
      → contains c.subscriptions d ≡ false
      → callbacks (subscribe_to_dtype d q c).1.backend (topic c.namespace d)
        ≡ callbacks c.backend (topic c.namespace d) ++ (internal d q ∷ [])
  unfolding subscribe_to_dtype Backend.subscribe
  callbacks-fresh c d q o new = ground (
    arith,
    ==_refl (topic c.namespace d),
    lookup-insert (topic c.namespace d) (topic c.namespace d)
        (callbacks c.backend (topic c.namespace d) ++ (internal d q ∷ [])) c.backend.topics,
  )

  same_namespace :
      (c : Client P) (d : Dtype) (q : ℕ) → (subscribe_to_dtype d q c).1.namespace ≡ c.namespace
  unfolding subscribe_to_dtype
  same_namespace c d q = ground arith

  -- On a consistent client whose transport is open, a first subscription to a data type returns,
  -- and from then on a message that unpickles, on the data type's topic, is also put into the queue
  -- given, after all that was delivered before.
  pub receive-subscribe_to_dtype :
      (c : Client P) (d : Dtype) (q : ℕ) (p : P) (m : M) (puts : List (Put M))
      → IsConsistent c
      → IsOpen c.backend
      → contains c.subscriptions d ≡ false
      → lib.pickle_loads p ≡ ok m
      → ((subscribe_to_dtype d q c).0 ≡ done)
        × (receive lib (subscribe_to_dtype d q c).1 (topic c.namespace d) p puts
            ≡ receive lib c (topic c.namespace d) p puts ++ ((q, d, m) ∷ []))
  unfolding subscribe_to_dtype Backend.subscribe deliveries
  receive-subscribe_to_dtype c d q p m puts h o new e = (ground arith, after)
    where
      c' : Client P
      c' = (subscribe_to_dtype d q c).1

      now :
          receive lib c' (topic c.namespace d) p puts
          ≡ puts ++ deliveries m (callbacks c'.backend (topic c.namespace d))
      now =
          rw (same_namespace c d q) at
            (delivery_exact lib c' d p m puts (subscribe_to_dtype-IsConsistent c h d q) e)

      after :
          receive lib c' (topic c.namespace d) p puts
          ≡ receive lib c (topic c.namespace d) p puts ++ ((q, d, m) ∷ [])
      after = rw (
        now,
        callbacks-fresh c d q o new,
        deliveries-append,
        delivery_exact lib c d p m puts h e,
        append_assoc,
      )

  callbacks-unsubscribe_self :
      (b : Backend Callback P) (t : Text) → IsOpen b → callbacks (Backend.unsubscribe t b) t ≡ []
  unfolding Backend.unsubscribe
  callbacks-unsubscribe_self b t o = ground (arith, lookup-erase t t b.topics, ==_refl t)

  no_callbacks_no_puts :
      (c : Client P) (t : Text) (p : P) (puts : List (Put M))
      → callbacks c.backend t ≡ []
      → receive lib c t p puts ≡ puts
  unfolding receive Backend.receive Backend.run_callbacks
  no_callbacks_no_puts c t p puts e = rw e (ground arith)

  bound_again :
      (c : Client P) (channel : Text) (e : Dtype) (q : ℕ) (codec : Text)
      → contains c.channels (channel, e) ≡ true
      → (subscribe_to_channel channel e q codec c).1 ≡ c
  unfolding subscribe_to_channel
  bound_again c channel e q codec h = ground arith

  -- On an open client with one channel bound to two different data types, unbinding one silences the
  -- channel: the client still lists the other binding, nothing that arrives on the channel is put
  -- anywhere, and binding the other data type again changes nothing.
  pub unsubscribe_channel_silences :
      (c : Client P) (channel : Text) (d e : Dtype) (q : ℕ) (codec : Text) (p : P)
      (puts : List (Put M))
      → IsOpen c.backend
      → d ≢ e
      → contains c.channels (channel, d) ≡ true
      → contains c.channels (channel, e) ≡ true
      → (contains (unsubscribe_channel channel d c).channels (channel, e) ≡ true)
        × (receive lib (unsubscribe_channel channel d c) channel p puts ≡ puts)
        × ((subscribe_to_channel channel e q codec (unsubscribe_channel channel d c)).1
            ≡ unsubscribe_channel channel d c)
  unsubscribe_channel_silences c channel d e q codec p puts o ne hd he = (
    kept,
    no_callbacks_no_puts (unsubscribe_channel channel d c) channel p puts silent,
    bound_again (unsubscribe_channel channel d c) channel e q codec kept,
  )
    where
      kept : contains (unsubscribe_channel channel d c).channels (channel, e) ≡ true
      kept =
          unfold unsubscribe_channel in
          ground (
            arith,
            contains-discard_ne c.channels (channel, d) (channel, e)
                (λ x. ne (ap (λ (t : Text × Dtype). t.1) x)),
          )

      silent : callbacks (unsubscribe_channel channel d c).backend channel ≡ []
      silent =
          unfold unsubscribe_channel in
          ground (arith, callbacks-unsubscribe_self c.backend channel o)
