-- ===== src/Tests/Streams.antt =====
-- Clients of two twins on one broker.
use digital_twin_framework.Prelude.{
  ℕ, codes, true, false, List, [], ◌∷◌, ◌++◌, ok, contains, nat_eq, list_eq, pair_eq, ◌≡◌, ◌≢◌,
  refl, false≢true, list_beq, ==_iff, some,
}
use digital_twin_framework.Dtype.{Dtype, plain, dtype_eq}
use digital_twin_framework.Dtype.Equality.{dtype_has_eq}
use digital_twin_framework.Stream.Codec.{Coders, codec_json}
use digital_twin_framework.Stream.Topic.{topic, check_namespace}
use digital_twin_framework.Stream.Backend.{Backend}
use digital_twin_framework.Stream.Client.{
  Callback, Client, new_client, receive, unsubscribe_channel, subscribe_to_channel,
}
use digital_twin_framework.Stream.Client.Consistent.{IsConsistent, callbacks}
use digital_twin_framework.Stream.Client.Delivery.{
  Call, subscribe_dtype, subscribe_channel, apply_all, new_client-IsConsistent,
  apply_all-IsConsistent, twins_isolated, delivery_exact, deliveries,
}
use digital_twin_framework.Stream.Client.Delivery.Subscribing.{IsOpen, unsubscribe_channel_silences}

abbrev numbers : Coders ℕ ℕ
numbers = record {
  json_dumps = λ m. ok m;
  json_loads = λ p. ok p;
  pickle_dumps = λ m. ok m;
  pickle_loads = λ p. ok p;
  to_bytes = λ m. ok m;
  of_bytes = λ p. p;
}

abbrev heat : Dtype
heat = plain (codes "heat")

abbrev wind : Dtype
wind = plain (codes "wind")

abbrev online : Backend Callback ℕ
online = record {
  pub_addr = some (codes "p");
  sub_addr = some (codes "s");
  has_pub = true;
  has_sub = true;
  options = [];
  topics = [];
  raw_topics = [];
  receiving = true;
  closed = false;
  running = true;
  sent = [];
}

abbrev twin_a : Client ℕ
twin_a = record { namespace = codes "a"; backend = online; subscriptions = []; channels = [] }

twin_a-IsConsistent : IsConsistent twin_a
unfolding new_client check_namespace
twin_a-IsConsistent = new_client-IsConsistent online (codes "a") refl refl refl

abbrev heard : List Call
heard = subscribe_dtype heat 7 ∷ subscribe_channel (codes "sensor") heat 8 codec_json ∷ []

abbrev listening : Client ℕ
listening = apply_all heard twin_a

listening-IsConsistent : IsConsistent listening
listening-IsConsistent = apply_all-IsConsistent heard twin_a twin_a-IsConsistent

b-ne-a : codes "b" ≢ codes "a"
unfolding list_beq
b-ne-a h = false≢true ((==_iff (codes "b") (codes "a")).1 h)

b_ok : check_namespace (codes "b") ≡ ok tt
unfolding check_namespace
b_ok = refl

twins_isolated_example : receive numbers (apply_all heard twin_a) (topic (codes "b") heat) 5 [] ≡ []
twins_isolated_example =
    twins_isolated numbers heard twin_a (codes "b") heat 5 [] twin_a-IsConsistent b_ok b-ne-a

delivery_exact_example :
    receive numbers listening (topic listening.namespace heat) 5 []
    ≡ [] ++ deliveries 5 (callbacks listening.backend (topic listening.namespace heat))
delivery_exact_example = delivery_exact numbers listening heat 5 5 [] listening-IsConsistent refl

-- One channel with two data types.
abbrev shared : Client ℕ
shared = record {
  namespace = codes "a";
  backend = record online {
    topics =
        (
          codes "sensor",
          Callback.external (codes "sensor") heat 8 codec_json
              ∷ Callback.external (codes "sensor") wind 9 codec_json
              ∷ [],
        )
        ∷ [];
    raw_topics = codes "sensor" ∷ [];
  };
  subscriptions = [];
  channels = (codes "sensor", wind) ∷ (codes "sensor", heat) ∷ [];
}

heat-ne-wind : heat ≢ wind
unfolding list_beq dtype_eq
heat-ne-wind h = false≢true ((==_iff heat wind).1 h)

shared-IsOpen : IsOpen shared.backend
shared-IsOpen = record { not_closed = refl; subscriber = refl; is_running = refl }

heat_bound : contains shared.channels (codes "sensor", heat) ≡ true
unfolding list_beq dtype_eq
heat_bound = refl

wind_bound : contains shared.channels (codes "sensor", wind) ≡ true
unfolding list_beq dtype_eq
wind_bound = refl

unsubscribe_channel_silences_example :
    (contains (unsubscribe_channel (codes "sensor") heat shared).channels (codes "sensor", wind)
      ≡ true)
    × (receive numbers (unsubscribe_channel (codes "sensor") heat shared) (codes "sensor") 5 []
        ≡ [])
    × ((subscribe_to_channel
          (codes "sensor")
          wind
          9
          codec_json
          (unsubscribe_channel (codes "sensor") heat shared)).1
        ≡ unsubscribe_channel (codes "sensor") heat shared)
unsubscribe_channel_silences_example =
    unsubscribe_channel_silences numbers shared (codes "sensor") heat wind 9 codec_json 5 []
      shared-IsOpen heat-ne-wind heat_bound wind_bound
