-- ===== src/Stream/Client/Delivery.antt =====
-- Which frames reach which queues of a `PubSubClient`, src/digitaltwin/streaming.py.
pub mod Subscribing
use digital_twin_framework.Prelude.{
  ℕ, Text, Bool, true, false, ◌||◌, not, ◌==◌, ==_iff, ==_refl, nat_eq, list_eq, pair_eq, List, [],
  ◌∷◌, ◌++◌, contains, discard, Option, none, some, is_some, is_ok, is_ok_of_eq, ok_of_is_ok,
  not_true, Result, ok, raise, ◌>>=◌, ◌>>◌, Status, done, raised, waiting, ◌≡◌, ap, ◌≢◌, ◌⊎◌, refl,
  sym, arith, if◌then◌else◌, lookup, lookup-insert, lookup-erase, get_or_else, has, All, Bool-cases,
  inl, inr, contains-discard_self, contains-discard_ne, append-nil, append_assoc, subst,
  ok-injective, ◌∙◌,
}
use digital_twin_framework.Dtype.{Dtype, name}
use digital_twin_framework.Dtype.Equality.{dtype_has_eq}
use digital_twin_framework.Stream.Codec.{Coders, check_codec, decode_payload}
use digital_twin_framework.Stream.Topic.{
  check_namespace, check_channel, topic, topic-ne-channel, topic-injective,
}
use digital_twin_framework.Stream.Backend
use digital_twin_framework.Stream.Backend.{Backend, Attempt, message, payload}
use digital_twin_framework.Stream.Client.{
  Callback, internal, external, Client, new_client, Put, subscribe_to_channel, unsubscribe_channel,
  subscribe_to_dtype, unsubscribe_dtype, close, publish, receive, receive_data, put_decoded,
  drop_dtypes, drop_channels, subscribe_checked, checked,
}
use digital_twin_framework.Stream.Client.Consistent.{
  callbacks, is_channel, Belongs, IsRouted, IsConsistent, topic_is_no_channel,
  subscribe_to_dtype-IsConsistent, subscribe_to_channel-IsConsistent,
  unsubscribe_dtype-IsConsistent, unsubscribe_channel-IsConsistent, close-IsConsistent,
}

-- The calls that a twin makes on its client.
pub data Call : Type 0 where
  subscribe_dtype : Dtype → ℕ → Call
  unsubscribe_dtype_of : Dtype → Call
  subscribe_channel : Text → Dtype → ℕ → Text → Call
  unsubscribe_channel_of : Text → Dtype → Call
  close_client : Call

module _ {P : Type 0} where
  unfoldable pub apply : Call → Client P → Client P
  apply (subscribe_dtype d q) c = (subscribe_to_dtype d q c).1
  apply (unsubscribe_dtype_of d) c = unsubscribe_dtype d c
  apply (subscribe_channel channel d q codec) c = (subscribe_to_channel channel d q codec c).1
  apply (unsubscribe_channel_of channel d) c = unsubscribe_channel channel d c
  apply close_client c = close c

  unfoldable pub apply_all : List Call → Client P → Client P
  unfolding apply
  apply_all [] c = c
  apply_all (x ∷ xs) c = apply_all xs (apply x c)

  drop_dtypes-namespace :
      (ds : List Dtype) (c : Client P) → (drop_dtypes ds c).namespace ≡ c.namespace
  unfolding drop_dtypes unsubscribe_dtype
  drop_dtypes-namespace [] c = refl
  drop_dtypes-namespace (d ∷ ds) c =
      let rest = drop_dtypes-namespace ds (unsubscribe_dtype d c) in ground (arith, rest)

  drop_channels-namespace :
      (cs : List (Text × Dtype)) (c : Client P) → (drop_channels cs c).namespace ≡ c.namespace
  unfolding drop_channels unsubscribe_channel
  drop_channels-namespace [] c = refl
  drop_channels-namespace ((t, d) ∷ cs) c =
      let rest = drop_channels-namespace cs (unsubscribe_channel t d c) in ground (arith, rest)

  subscribe_checked-namespace :
      (channel : Text) (d : Dtype) (q : ℕ) (codec : Text) (c : Client P)
      → (subscribe_checked channel d q codec c).1.namespace ≡ c.namespace
  unfolding subscribe_checked
  subscribe_checked-namespace channel d q codec c = ground arith

  checked-namespace :
      (r : Result (Unit {0})) (c : Client P) (n : Status × Client P)
      → n.1.namespace ≡ c.namespace
      → (checked r c n).1.namespace ≡ c.namespace
  unfolding checked
  checked-namespace (ok u) c n h = h
  checked-namespace (raise e) c n h = refl

  apply-namespace : (x : Call) (c : Client P) → (apply x c).namespace ≡ c.namespace
  unfolding apply subscribe_to_dtype subscribe_to_channel unsubscribe_dtype unsubscribe_channel
      close
  apply-namespace (subscribe_dtype d q) c = ground arith
  apply-namespace (unsubscribe_dtype_of d) c = ground arith
  apply-namespace (subscribe_channel channel d q codec) c =
      checked-namespace (check_channel channel >> check_codec codec) c
        (subscribe_checked channel d q codec c) (subscribe_checked-namespace channel d q codec c)
  apply-namespace (unsubscribe_channel_of channel d) c = ground arith
  apply-namespace close_client c =
      let c' = drop_dtypes c.subscriptions c in
      drop_channels-namespace c'.channels c' ∙ drop_dtypes-namespace c.subscriptions c

  apply_all-namespace : (xs : List Call) (c : Client P) → (apply_all xs c).namespace ≡ c.namespace
  unfolding apply_all
  apply_all-namespace [] c = refl
  apply_all-namespace (x ∷ xs) c = apply_all-namespace xs (apply x c) ∙ apply-namespace x c

  -- A client built on a transport with no subscriptions is consistent.
  pub new_client-IsConsistent :
      (b : Backend Callback P) (ns : Text) {c : Client P}
      → b.topics ≡ []
      → b.raw_topics ≡ []
      → new_client b ns ≡ ok c
      → IsConsistent c
  unfolding new_client lookup
  new_client-IsConsistent b ns {c} t r h = go (check_namespace ns) refl h
    where
      start : Client P
      start = record { namespace = ns; backend = b; subscriptions = []; channels = [] }

      go :
          (s : Result (Unit {0})) → check_namespace ns ≡ s → (s >> ok start) ≡ ok c → IsConsistent c
      go (ok u) e k = subst IsConsistent (ok-injective k) (record {
        named = e;
        routed = record {
          owned = λ t'. rw t tt;
          raw_only = λ t' x. ground (arith);
          raw_all = λ t' x y. ground (arith);
        };
      })
      go (raise x) e k = absurd (ground arith)

  apply-IsConsistent : (x : Call) (c : Client P) → IsConsistent c → IsConsistent (apply x c)
  unfolding apply
  apply-IsConsistent (subscribe_dtype d q) c h = subscribe_to_dtype-IsConsistent c h d q
  apply-IsConsistent (unsubscribe_dtype_of d) c h = unsubscribe_dtype-IsConsistent c h d
  apply-IsConsistent (subscribe_channel channel d q codec) c h =
      subscribe_to_channel-IsConsistent c h channel d q codec
  apply-IsConsistent (unsubscribe_channel_of channel d) c h =
      unsubscribe_channel-IsConsistent c h channel d
  apply-IsConsistent close_client c h = close-IsConsistent c h

  -- Any calls keep a client consistent: each callback stands under its own topic, and exactly the
  -- external channels are handed over raw.
  pub apply_all-IsConsistent :
      (xs : List Call) (c : Client P) → IsConsistent c → IsConsistent (apply_all xs c)
  unfolding apply_all
  apply_all-IsConsistent [] c h = h
  apply_all-IsConsistent (x ∷ xs) c h =
      apply_all-IsConsistent xs (apply x c) (apply-IsConsistent x c h)

foreign_topic :
    (m n : Text) (d : Dtype) (cbs : List Callback)
    → check_namespace m ≡ ok tt
    → check_namespace n ≡ ok tt
    → m ≢ n
    → All (Belongs n (topic m d)) cbs
    → cbs ≡ []
foreign_topic m n d [] hm hn ne own = refl
foreign_topic m n d (internal e q ∷ cbs) hm hn ne own =
    absurd (ne (topic-injective m n d e hm hn own.0).0)
foreign_topic m n d (external channel e q codec ∷ cbs) hm hn ne own =
    ground (arith, topic_is_no_channel m d)

not_raw :
    {P : Type 0} (ns : Text) (b : Backend Callback P) (d : Dtype)
    → IsRouted ns b
    → contains b.raw_topics (topic ns d) ≡ false
not_raw ns b d h = ground (arith, topic_is_no_channel ns d, h.raw_only (topic ns d))

-- The puts of internal callbacks for a message.
unfoldable pub deliveries : {M : Type 0} → M → List Callback → List (Put M)
deliveries m [] = []
deliveries m (internal d q ∷ cbs) = (q, d, m) ∷ deliveries m cbs
deliveries m (external channel d q codec ∷ cbs) = deliveries m cbs

module _ {M P : Type 0} (lib : Coders M P) where
  foreign_frame :
      (c : Client P) (m : Text) (d : Dtype) (p : P) (puts : List (Put M))
      → IsConsistent c
      → check_namespace m ≡ ok tt
      → m ≢ c.namespace
      → receive lib c (topic m d) p puts ≡ puts
  unfolding receive Backend.receive Backend.run_callbacks
  foreign_frame c m d p puts h hm ne =
      rw
        (foreign_topic m c.namespace d (callbacks c.backend (topic m d)) hm h.named ne
          (h.routed.owned (topic m d)))
        (ground arith)

  -- Whatever a twin does with a client that was consistent, a frame on a topic of another valid
  -- namespace puts nothing into its queues.
  pub twins_isolated :
      (xs : List Call) (c : Client P) (m : Text) (d : Dtype) (p : P) (puts : List (Put M))
      → IsConsistent c
      → check_namespace m ≡ ok tt
      → m ≢ c.namespace
      → receive lib (apply_all xs c) (topic m d) p puts ≡ puts
  twins_isolated xs c m d p puts h hm ne =
      foreign_frame (apply_all xs c) m d p puts (apply_all-IsConsistent xs c h) hm
        (λ e. ne (e ∙ apply_all-namespace xs c))

  run_internal :
      (ns : Text) (d : Dtype) (m : M) (cbs : List Callback) (puts : List (Put M))
      → All (Belongs ns (topic ns d)) cbs
      → Backend.run_callbacks lib (receive_data lib) cbs (message m) puts ≡ puts ++ deliveries m cbs
  unfolding Backend.run_callbacks receive_data deliveries
  run_internal ns d m [] puts own = rw append-nil
  run_internal ns d m (internal e q ∷ cbs) puts own =
      run_internal ns d m cbs (puts ++ ((q, e, m) ∷ [])) own.1 ∙ append_assoc puts _ _
  run_internal ns d m (external channel e q codec ∷ cbs) puts own =
      ground (arith, topic_is_no_channel ns d)

  -- On a consistent client, a message that unpickles, on a data type's own topic, is put into the
  -- queue of each callback of that topic, in their order, and nowhere else.
  pub delivery_exact :
      (c : Client P) (d : Dtype) (p : P) (m : M) (puts : List (Put M))
      → IsConsistent c
      → lib.pickle_loads p ≡ ok m
      → receive lib c (topic c.namespace d) p puts
        ≡ puts ++ deliveries m (callbacks c.backend (topic c.namespace d))
  unfolding receive Backend.receive
  delivery_exact c d p m puts h e =
      rw (not_raw c.namespace c.backend d h.routed, e)
        (run_internal c.namespace d m _ puts (h.routed.owned (topic c.namespace d)))
