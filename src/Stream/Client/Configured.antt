-- ===== src/Stream/Client/Configured.antt =====
-- What a client says of its endpoint, `PubSubClient.config`, src/digitaltwin/streaming.py.
use digital_twin_framework.Prelude.{
  Text, List, [], ◌∷◌, some, ◌≡◌, refl, arith, ◌∙◌, nat_eq, list_eq,
}
use digital_twin_framework.Dtype.{Dtype}
use digital_twin_framework.Stream.Backend
use digital_twin_framework.Stream.Backend.{shut}
use digital_twin_framework.Stream.Client.{
  Client, checked, subscribe_checked, subscribe_to_channel, unsubscribe_channel, subscribe_to_dtype,
  unsubscribe_dtype, drop_dtypes, drop_channels, close,
}
use digital_twin_framework.Stream.Client.Delivery.{
  Call, subscribe_dtype, unsubscribe_dtype_of, subscribe_channel, unsubscribe_channel_of,
  close_client, apply, apply_all,
}
use digital_twin_framework.Stream.Endpoint.{backend_kind, PubSubConfig}

module _ {P : Type 0} where
  -- `PubSubClient.config`
  unfoldable pub config : Client P → PubSubConfig
  config c = record {
    namespace = some c.namespace;
    pub_addr = c.backend.pub_addr;
    sub_addr = c.backend.sub_addr;
    kind = backend_kind;
  }

  drop_dtypes-config : (ds : List Dtype) (c : Client P) → config (drop_dtypes ds c) ≡ config c
  unfolding drop_dtypes unsubscribe_dtype Backend.unsubscribe config
  drop_dtypes-config [] c = refl
  drop_dtypes-config (d ∷ ds) c =
      let rest = drop_dtypes-config ds (unsubscribe_dtype d c) in ground (arith, rest)

  drop_channels-config :
      (cs : List (Text × Dtype)) (c : Client P) → config (drop_channels cs c) ≡ config c
  unfolding drop_channels unsubscribe_channel Backend.unsubscribe config
  drop_channels-config [] c = refl
  drop_channels-config ((t, d) ∷ cs) c =
      let rest = drop_channels-config cs (unsubscribe_channel t d c) in ground (arith, rest)

  apply-config : (x : Call) (c : Client P) → config (apply x c) ≡ config c
  unfolding apply subscribe_to_dtype subscribe_to_channel unsubscribe_dtype unsubscribe_channel
      close config checked subscribe_checked Backend.subscribe Backend.unsubscribe Backend.close
      shut
  apply-config (subscribe_dtype d q) c = ground arith
  apply-config (unsubscribe_dtype_of d) c = ground arith
  apply-config (subscribe_channel channel d q codec) c = ground arith
  apply-config (unsubscribe_channel_of channel d) c = ground arith
  apply-config close_client c =
      let c' = drop_dtypes c.subscriptions c in
      let e = drop_channels-config c'.channels c' ∙ drop_dtypes-config c.subscriptions c in
      ground (arith, e)

  pub apply_all-config : (xs : List Call) (c : Client P) → config (apply_all xs c) ≡ config c
  unfolding apply_all
  apply_all-config [] c = refl
  apply_all-config (x ∷ xs) c = apply_all-config xs (apply x c) ∙ apply-config x c
