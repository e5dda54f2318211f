-- ===== src/Stream/Endpoint/Reopening.antt =====
-- A client that is opened from the configuration of another one, `PubSubConfig.connect` of
-- `PubSubClient.config`, src/digitaltwin/streaming.py.
pub mod Shipped
use digital_twin_framework.Prelude.{
  Text, List, [], Option, none, some, Result, ok, raise, done, raised, waiting, ◌==◌, ==_iff,
  nat_eq, list_eq, ◌≡◌, refl, arith, ap, ◌∙◌, Bool-cases, inl, inr, list_beq,
}
use digital_twin_framework.Stream.Topic.{check_namespace}
use digital_twin_framework.Stream.Backend
use digital_twin_framework.Stream.Backend.{
  Backend, Attempt, connected, timed_out, failed, init, shut,
}
use digital_twin_framework.Stream.Client.{Callback, Client, new_client}
use digital_twin_framework.Stream.Client.Delivery.{Call, apply_all}
use digital_twin_framework.Stream.Client.Configured.{config, apply_all-config}
use digital_twin_framework.Stream.Endpoint.{
  backend_kind, PubSubConfig, Opening, connect_backend, connect, connect_as, tried, made, wrapped,
}

module _ {P : Type 0} where
  -- The transport of two addresses, once it is connected.
  ready : Option Text → Option Text → Backend Callback P
  ready p s = (Backend.connect connected connected (init p s)).1

  tried-ready :
      (a b : Attempt) (p s : Option Text) (bk : Backend Callback P)
      → (tried (Backend.connect a b (init p s))).opened ≡ some bk
      → bk ≡ ready p s
  unfolding tried ready Backend.connect init Backend.close shut
  tried-ready a b none none bk h = cc
  tried-ready connected b none (some s) bk h = cc
  tried-ready timed_out b none (some s) bk h = cc
  tried-ready (failed e) b none (some s) bk h = cc
  tried-ready a connected (some p) none bk h = cc
  tried-ready a timed_out (some p) none bk h = cc
  tried-ready a (failed e) (some p) none bk h = cc
  tried-ready connected connected (some p) (some s) bk h = cc
  tried-ready connected timed_out (some p) (some s) bk h = cc
  tried-ready connected (failed e) (some p) (some s) bk h = cc
  tried-ready timed_out b (some p) (some s) bk h = cc
  tried-ready (failed e) b (some p) (some s) bk h = cc

  connect_backend-ready :
      (a b : Attempt) (cfg : PubSubConfig) (bk : Backend Callback P)
      → (connect_backend a b cfg).opened ≡ some bk
      → (cfg.kind ≡ backend_kind) × (bk ≡ ready cfg.pub_addr cfg.sub_addr)
  unfolding connect_backend tried
  connect_backend-ready a b cfg bk h = elim (Bool-cases (cfg.kind == backend_kind)) [
    | inl k ↦ (
      (==_iff cfg.kind backend_kind).0 k,
      tried-ready a b cfg.pub_addr cfg.sub_addr bk (ground (arith, k, h)),
    )
    | inr k ↦ ground (arith, k, h)
  ]

  new_client-is :
      (bk : Backend Callback P) (ns : Text) (c : Client P)
      → new_client bk ns ≡ ok c
      → (check_namespace ns ≡ ok tt)
        × (c ≡ record { namespace = ns; backend = bk; subscriptions = []; channels = [] })
  unfolding new_client
  new_client-is bk ns c h = ground arith

  wrapped-opened :
      (ns : Text) (o : Opening (Backend Callback P) Callback P) (c : Client P)
      → (wrapped (λ b. new_client b ns) o o.opened).opened ≡ some c
      → (bk : Backend Callback P) × (o.opened ≡ some bk) × (new_client bk ns ≡ ok c)
  unfolding wrapped made
  wrapped-opened ns o c h = go o.opened h
    where
      go_made :
          (bk : Backend Callback P) (r : Result (Client P))
          → (made r o.transport).opened ≡ some c
          → r ≡ ok c
      go_made bk (ok x) k = cc
      go_made bk (raise e) k = cc

      go :
          (t : Option (Backend Callback P))
          → (wrapped (λ b. new_client b ns) o t).opened ≡ some c
          → (bk : Backend Callback P) × (t ≡ some bk) × (new_client bk ns ≡ ok c)
      go none k = cc
      go (some bk) k = (bk, refl, go_made bk (new_client bk ns) k)

  -- A client that was opened, by what it was opened from.
  opened_from :
      (a b : Attempt) (ns p s : Option Text) (kind : Text) (c : Client P)
      → (connect a b (record { namespace = ns; pub_addr = p; sub_addr = s; kind = kind })).opened
        ≡ some c
      → (n : Text) × (ns ≡ some n)
        × (kind ≡ backend_kind)
        × (check_namespace n ≡ ok tt)
        × (c ≡ record { namespace = n; backend = ready p s; subscriptions = []; channels = [] })
  unfolding connect connect_as
  opened_from a b none p s kind c h = cc
  opened_from a b (some n) p s kind c h =
      let cfg : PubSubConfig = record {
        namespace = some n;
        pub_addr = p;
        sub_addr = s;
        kind = kind;
      } in
      let (bk, e, k) = wrapped-opened n (connect_backend a b cfg) c h in
      let (named, r) = connect_backend-ready a b cfg bk e in
      let (legal, is) = new_client-is bk n c k in (n, refl, named, legal, rw (is, r) refl)

  opens_again :
      (n : Text) (p s : Option Text)
      → check_namespace n ≡ ok tt
      → connect connected connected
          (record { namespace = some n; pub_addr = p; sub_addr = s; kind = backend_kind })
        ≡ record {
          status = done;
          opened =
              some
                (record { namespace = n; backend = ready p s; subscriptions = []; channels = [] });
          transport = some (ready p s);
        }
  unfolding connect connect_as connect_backend wrapped made new_client tried ready Backend.connect
      init list_beq
  opens_again n none none h = rw h refl
  opens_again n none (some s) h = rw h refl
  opens_again n (some p) none h = rw h refl
  opens_again n (some p) (some s) h = rw h refl

  fresh : Text → Option Text → Option Text → Client P
  fresh n p s = record { namespace = n; backend = ready p s; subscriptions = []; channels = [] }

  fresh-config :
      (n : Text) (cfg : PubSubConfig) (c : Client P)
      → c ≡ fresh n cfg.pub_addr cfg.sub_addr
      → cfg.namespace ≡ some n
      → cfg.kind ≡ backend_kind
      → config c ≡ cfg
  unfolding config fresh ready init Backend.connect
  fresh-config n cfg c is named kind =
      ap config is ∙ (go cfg.pub_addr cfg.sub_addr ∙ rw (named, kind) refl)
    where
      go :
          (p s : Option Text)
          → config (fresh n p s)
            ≡ record { namespace = some n; pub_addr = p; sub_addr = s; kind = backend_kind }
      go none none = refl
      go none (some s) = refl
      go (some p) none = refl
      go (some p) (some s) = refl

  -- A client that was opened from a configuration reports that configuration after any calls, a close
  -- included, and once the broker can be reached, what it reports opens a client that is as it was
  -- itself when it was opened: with its namespace and its addresses, connected, and with no
  -- subscription.
  pub reopened_as_new :
      (a b : Attempt) (cfg : PubSubConfig) (c : Client P) (xs : List Call)
      → (connect a b cfg).opened ≡ some c
      → (config (apply_all xs c) ≡ cfg)
        × (connect connected connected (config (apply_all xs c))
            ≡ record { status = done; opened = some c; transport = some c.backend })
  unfolding fresh
  reopened_as_new a b cfg c xs h =
      let (n, named, kind, legal, is) =
        opened_from a b cfg.namespace cfg.pub_addr cfg.sub_addr cfg.kind c h in
      let same : config c ≡ cfg = fresh-config n cfg c is named kind in
      let kept = apply_all-config xs c ∙ same in
      (kept, rw (kept, named, kind, is) (opens_again n cfg.pub_addr cfg.sub_addr legal))
