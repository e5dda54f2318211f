-- ===== src/Stream/Client/Consistent.antt =====
-- The invariant of `PubSubClient` of src/digitaltwin/streaming.py: where callbacks stand, and which
-- topics are raw.
use digital_twin_framework.Prelude.{
  ℕ, Text, Bool, true, false, ==_iff, nat_eq, list_eq, pair_eq, List, [], ◌∷◌, ◌++◌, contains,
  is_ok, ok_of_is_ok, is_ok_of_eq, >>-eq-ok, not_true, Result, ok, raise, ◌>>◌, ◌≡◌, ◌⊎◌, refl,
  arith, if◌then◌else◌, lookup, lookup-insert, lookup-erase, get_or_else, has, All, All-append,
  Bool-cases, inl, inr, contains-discard_self, contains-discard_ne,
}
use digital_twin_framework.Dtype.{Dtype}
use digital_twin_framework.Dtype.Equality.{dtype_has_eq}
use digital_twin_framework.Stream.Codec.{check_codec}
use digital_twin_framework.Stream.Topic.{check_namespace, check_channel, topic, topic-ne-channel}
use digital_twin_framework.Stream.Backend
use digital_twin_framework.Stream.Backend.{Backend, Attempt}
use digital_twin_framework.Stream.Client.{
  Callback, internal, external, Client, subscribe_to_channel, unsubscribe_channel,
  subscribe_to_dtype, unsubscribe_dtype, close, checked, subscribe_checked, drop_dtypes,
  drop_channels,
}

-- The callbacks that a frame of a topic reaches.
abbrev pub callbacks : {P : Type 0} → Backend Callback P → Text → List Callback
callbacks b t = get_or_else (lookup t b.topics) []

abbrev pub is_channel : Text → Bool
is_channel t = is_ok (check_channel t)

abbrev pub Belongs : Text → Text → Callback → Type 0
Belongs ns t (internal d q) = t ≡ topic ns d
Belongs ns t (external channel d q codec) = (t ≡ channel) × (is_channel t ≡ true)

pub record IsRouted {P : Type 0} (ns : Text) (b : Backend Callback P) : Type 0 where
  pub owned : (t : Text) → All (Belongs ns t) (callbacks b t)
  pub raw_only : (t : Text) → contains b.raw_topics t ≡ true → is_channel t ≡ true
  pub raw_all :
      (t : Text) → has t b.topics ≡ true → is_channel t ≡ true → contains b.raw_topics t ≡ true

module _ {P : Type 0} (b : Backend Callback P) (t u : Text) where
  -- A subscription adds its callback under its topic or changes nothing; an unsubscription empties
  -- its topic or changes nothing.
  pub callbacks-subscribe :
      (cb : Callback) (as_raw : Bool)
      → (callbacks (Backend.subscribe t cb as_raw b).1 u ≡ callbacks b u)
        ⊎ ((t ≡ u) × (callbacks (Backend.subscribe t cb as_raw b).1 u ≡ callbacks b u ++ (cb ∷ [])))
  unfolding Backend.subscribe
  callbacks-subscribe cb as_raw = ground (
    arith,
    ==_iff t u,
    lookup-insert t u (get_or_else (lookup t b.topics) [] ++ (cb ∷ [])) b.topics,
  )

  pub callbacks-unsubscribe :
      (callbacks (Backend.unsubscribe t b) u ≡ callbacks b u)
      ⊎ (callbacks (Backend.unsubscribe t b) u ≡ [])
  unfolding Backend.unsubscribe
  callbacks-unsubscribe = ground (arith, lookup-erase t u b.topics)

module _ {P : Type 0} (ns : Text) (b : Backend Callback P) (routed : IsRouted ns b) where
  subscribe-owned :
      (t : Text) (cb : Callback) (as_raw : Bool)
      → Belongs ns t cb
      → (u : Text) → All (Belongs ns u) (callbacks (Backend.subscribe t cb as_raw b).1 u)
  subscribe-owned t cb as_raw own u = elim (callbacks-subscribe b t u cb as_raw) [
    | inl e ↦ rw e (routed.owned u)
    | inr (p, e) ↦
        rw e
          (All-append (Belongs ns u) (callbacks b u) (cb ∷ []) (routed.owned u) (rw (← p) own, tt))
  ]

  subscribe-raw_only :
      (t : Text) (cb : Callback) (as_raw : Bool)
      → is_channel t ≡ as_raw
      → (u : Text) → contains (Backend.subscribe t cb as_raw b).1.raw_topics u ≡ true
      → is_channel u ≡ true
  unfolding Backend.subscribe
  subscribe-raw_only t cb as_raw own u h =
      ground (arith, ==_iff t u, contains-discard_ne b.raw_topics t u, routed.raw_only u)

  subscribe-raw_all :
      (t : Text) (cb : Callback) (as_raw : Bool)
      → is_channel t ≡ as_raw
      → (u : Text) → has u (Backend.subscribe t cb as_raw b).1.topics ≡ true
      → is_channel u ≡ true
      → contains (Backend.subscribe t cb as_raw b).1.raw_topics u ≡ true
  unfolding Backend.subscribe
  subscribe-raw_all t cb as_raw own u h k = ground (
    arith,
    ==_iff t u,
    contains-discard_ne b.raw_topics t u,
    routed.raw_all u,
    lookup-insert t u (get_or_else (lookup t b.topics) [] ++ (cb ∷ [])) b.topics,
  )

  unsubscribe-IsRouted : (t : Text) → IsRouted ns (Backend.unsubscribe t b)
  unfolding Backend.unsubscribe
  unsubscribe-IsRouted t = record {
    owned =
        λ u. elim (callbacks-unsubscribe b t u) [ inl e ↦ rw e (routed.owned u) | inr e ↦ rw e tt ];
    raw_only = λ u h. ground (
      arith,
      ==_iff t u,
      contains-discard_ne b.raw_topics t u,
      contains-discard_self b.raw_topics t,
      routed.raw_only u,
    );
    raw_all = λ u h k. ground (
      arith,
      ==_iff t u,
      contains-discard_ne b.raw_topics t u,
      lookup-erase t u b.topics,
      routed.raw_all u,
    );
  }

  subscribe-IsRouted :
      (t : Text) (cb : Callback) (as_raw : Bool)
      → Belongs ns t cb
      → is_channel t ≡ as_raw
      → IsRouted ns (Backend.subscribe t cb as_raw b).1
  subscribe-IsRouted t cb as_raw own same = record {
    owned = subscribe-owned t cb as_raw own;
    raw_only = subscribe-raw_only t cb as_raw same;
    raw_all = subscribe-raw_all t cb as_raw same;
  }

  shut-IsRouted : IsRouted ns (Backend.shut b)
  unfolding Backend.shut lookup
  shut-IsRouted = record { owned = λ t. tt; raw_only = λ t h. cc; raw_all = λ t h k. cc }

  close-IsRouted : IsRouted ns (Backend.close b)
  unfolding Backend.close
  close-IsRouted = elim b.closed as (λ x. IsRouted ns (if x then b else Backend.shut b)) [
    | true ↦ routed
    | false ↦ shut-IsRouted
  ]

pub record IsConsistent {P : Type 0} (c : Client P) : Type 0 where
  pub named : check_namespace c.namespace ≡ ok tt
  pub routed : IsRouted c.namespace c.backend

pub topic_is_no_channel : (ns : Text) (d : Dtype) → is_channel (topic ns d) ≡ false
topic_is_no_channel ns d =
    not_true _
      (λ k. topic-ne-channel ns d (topic ns d) (ok_of_is_ok (check_channel (topic ns d)) k) refl)

module _ {P : Type 0} (c : Client P) (h : IsConsistent c) where
  pub subscribe_to_dtype-IsConsistent :
      (d : Dtype) (q : ℕ) → IsConsistent (subscribe_to_dtype d q c).1
  unfolding subscribe_to_dtype
  subscribe_to_dtype-IsConsistent d q = elim (Bool-cases (contains c.subscriptions d)) [
    | inl old ↦ rw (old, subscribe_to_dtype) h
    | inr new ↦
        rw (new, subscribe_to_dtype)
          (record {
            named = h.named;
            routed =
                subscribe-IsRouted c.namespace c.backend h.routed (topic c.namespace d)
                  (internal d q) false refl (topic_is_no_channel c.namespace d);
          })
  ]

  pub unsubscribe_dtype-IsConsistent : (d : Dtype) → IsConsistent (unsubscribe_dtype d c)
  unfolding unsubscribe_dtype
  unsubscribe_dtype-IsConsistent d = elim (Bool-cases (contains c.subscriptions d)) [
    | inl old ↦
        rw (old, unsubscribe_dtype)
          (record {
            named = h.named;
            routed = unsubscribe-IsRouted c.namespace c.backend h.routed (topic c.namespace d);
          })
    | inr new ↦ rw (new, unsubscribe_dtype) h
  ]

  pub unsubscribe_channel-IsConsistent :
      (channel : Text) (d : Dtype) → IsConsistent (unsubscribe_channel channel d c)
  unfolding unsubscribe_channel
  unsubscribe_channel-IsConsistent channel d =
      elim (Bool-cases (contains c.channels (channel, d))) [
        | inl old ↦
            rw (old, unsubscribe_channel)
              (record {
                named = h.named;
                routed = unsubscribe-IsRouted c.namespace c.backend h.routed channel;
              })
        | inr new ↦ rw (new, unsubscribe_channel) h
      ]

  pub subscribe_to_channel-IsConsistent :
      (channel : Text) (d : Dtype) (q : ℕ) (codec : Text)
      → IsConsistent (subscribe_to_channel channel d q codec c).1
  unfolding subscribe_to_channel
  subscribe_to_channel-IsConsistent channel d q codec =
      go (check_channel channel >> check_codec codec) refl
    where
      fresh : is_channel channel ≡ true → IsConsistent (subscribe_checked channel d q codec c).1
      fresh k = elim (Bool-cases (contains c.channels (channel, d))) [
        | inl old ↦ rw (old, subscribe_checked) h
        | inr new ↦
            rw (new, subscribe_checked)
              (record {
                named = h.named;
                routed =
                    subscribe-IsRouted c.namespace c.backend h.routed channel
                      (external channel d q codec) true (refl, k) k;
              })
      ]

      go :
          (r : Result (Unit {0}))
          → (check_channel channel >> check_codec codec) ≡ r
          → IsConsistent (checked r c (subscribe_checked channel d q codec c)).1
      go (ok u) e = fresh (is_ok_of_eq _ (>>-eq-ok (check_channel channel) (check_codec codec) e).0)
      go (raise x) e = h

module _ {P : Type 0} where
  drop_dtypes-IsConsistent :
      (ds : List Dtype) (c : Client P) → IsConsistent c → IsConsistent (drop_dtypes ds c)
  unfolding drop_dtypes
  drop_dtypes-IsConsistent [] c h = h
  drop_dtypes-IsConsistent (d ∷ ds) c h =
      drop_dtypes-IsConsistent ds (unsubscribe_dtype d c) (unsubscribe_dtype-IsConsistent c h d)

  drop_channels-IsConsistent :
      (cs : List (Text × Dtype)) (c : Client P) → IsConsistent c → IsConsistent (drop_channels cs c)
  unfolding drop_channels
  drop_channels-IsConsistent [] c h = h
  drop_channels-IsConsistent ((channel, d) ∷ cs) c h =
      drop_channels-IsConsistent cs (unsubscribe_channel channel d c)
        (unsubscribe_channel-IsConsistent c h channel d)

  pub close-IsConsistent : (c : Client P) → IsConsistent c → IsConsistent (close c)
  unfolding close
  close-IsConsistent c h =
      let k = drop_dtypes-IsConsistent c.subscriptions c h in
      let c' = drop_dtypes c.subscriptions c in
      let k' = drop_channels-IsConsistent c'.channels c' k in
      record { named = k'.named; routed = close-IsRouted _ _ k'.routed }
