-- ===== src/Service/Registering/Reattaching.antt =====
-- Sessions live until they are unregistered, and a client that registers again finds its session.
-- src/digitaltwin/service/plugin.py and src/digitaltwin/service/client.py.
use digital_twin_framework.Prelude.{
  ℕ, Text, codes, Bool, true, false, ◌∷◌, Option, none, some, Dict, lookup, insert, erase,
  lookup-insert, lookup-erase, has, nat_eq, list_eq, list_beq, ◌==◌, ==_refl, ==_iff, Result, ok,
  if◌then◌else◌, ◌≡◌, ◌≢◌, refl, arith, raise, subst, Bool-cases, inl, inr,
}
use digital_twin_framework.Service.Plugin
use digital_twin_framework.Service.Plugin.{Session, Sessions}
use digital_twin_framework.Service.Registering.{
  Value, text, Body, body_of, decoded, Registered, forced_policy, client_payload, Policies,
  Registry, register_session, config_of, with_config, by_policy, open_session, reattached,
}

-- Whatever a client asks for, the policy that reaches the host is a persistent session without a time to
-- live, and every other field is the client's.
pub policy_is_persistent :
    {C : Type 0} (d : Dict Text (Value C)) (k : Text)
    → k ≢ codes "lifetime"
    → k ≢ codes "ttl"
    → (lookup (codes "lifetime") (forced_policy d) ≡ some (text (codes "persistent")))
      × (lookup (codes "ttl") (forced_policy d) ≡ none)
      × (lookup k (forced_policy d) ≡ lookup k d)
unfolding forced_policy
policy_is_persistent d k nl nt =
    let l = codes "lifetime" in
    let t = codes "ttl" in
    let d' = insert l (text (codes "persistent")) d in
    let apart : (l == t) ≡ false = unfold list_beq in refl in
    let apart' : (t == l) ≡ false = unfold list_beq in refl in
    (
      ground (
        arith,
        lookup-erase t l d',
        lookup-insert l l (text (codes "persistent")) d,
        apart',
        ==_refl l,
      ),
      ground (arith, lookup-erase t t d', ==_refl t),
      ground (
        arith,
        lookup-erase t k d',
        lookup-insert l k (text (codes "persistent")) d,
        ==_iff t k,
        ==_iff l k,
      ),
    )

module _ {C : Type 0} where
  abbrev pub payload : ℕ → Text → Option C → Dict Text (Value C)
  payload c cs config = client_payload (some (c ∷ cs)) config

  payload_sid :
      (c : ℕ) (cs : Text) (config : Option C)
      → lookup (codes "sid") (forced_policy (payload c cs config)) ≡ some (text (c ∷ cs))
  unfolding forced_policy client_payload lookup insert erase list_beq
  payload_sid c cs none = refl
  payload_sid c cs (some cfg) = refl

  payload_config :
      (c : ℕ) (cs : Text) (config : Option C)
      → config_of (lookup (codes "config") (payload c cs config)) ≡ ok config
  unfolding config_of client_payload lookup insert list_beq
  payload_config c cs none = refl
  payload_config c cs (some cfg) = refl

module _ {C T : Type 0} (host : Policies C) (empty_config : C) where
  by_policy-named :
      (p : Result (Option Text)) (sid : Text) (config : Option C) (r : Registry C T)
      → p ≡ ok (some sid)
      → host.conflict sid ≡ ok tt
      → has sid r.sessions ≡ true
      → by_policy host empty_config p config r ≡ (ok (sid, true), r)
  unfolding by_policy reattached
  by_policy-named p sid config r h free there = rw (h, free, there) refl

  has-register_session :
      (sid : Text) (ss : Sessions T) → has sid (Plugin.register_session sid ss) ≡ true
  unfolding Plugin.register_session
  has-register_session sid ss = elim (Bool-cases (has sid ss)) [
    | inl h ↦ ground arith
    | inr h ↦ ground (arith, lookup-insert sid sid Plugin.new_session ss, ==_refl sid)
  ]

  -- The session of an id that was answered is there.
  abbrev IsThere : Registered C T → Type 0
  IsThere x = (sid : Text) (was : Bool) → x.0 ≡ ok (sid, was) → has sid x.1.sessions ≡ true

  opened-IsThere :
      (sid : Text) (config : Option C) (r : Registry C T)
      → IsThere (open_session host empty_config sid config r)
  unfolding open_session
  opened-IsThere sid config r sid' was h =
      let same : sid ≡ sid' = cc in
      subst (λ i. has i (Plugin.register_session sid r.sessions) ≡ true) same
        (has-register_session sid r.sessions)

  reattached-IsThere :
      (c : Result (Unit {0})) (sid : Text) (r : Registry C T)
      → has sid r.sessions ≡ true
      → IsThere (reattached host empty_config c sid r)
  unfolding reattached
  reattached-IsThere (ok u) sid r h sid' was k =
      let same : sid ≡ sid' = cc in subst (λ i. has i r.sessions ≡ true) same h
  reattached-IsThere (raise e) sid r h sid' was k = cc

  by_policy-IsThere :
      (p : Result (Option Text)) (config : Option C) (r : Registry C T)
      → IsThere (by_policy host empty_config p config r)
  unfolding by_policy
  by_policy-IsThere (raise e) config r = λ sid was h. cc
  by_policy-IsThere (ok none) config r = opened-IsThere (host.opens none) config r
  by_policy-IsThere (ok (some sid)) config r = go (has sid r.sessions) refl
    where
      go :
          (v : Bool)
          → has sid r.sessions ≡ v
          → IsThere (
              if v
              then reattached host empty_config (host.conflict sid) sid r
              else open_session host empty_config (host.opens (some sid)) config r)
      go true h = reattached-IsThere (host.conflict sid) sid r h
      go false h = opened-IsThere (host.opens (some sid)) config r

  with_config-IsThere :
      (d : Dict Text (Value C)) (x : Result (Option C)) (r : Registry C T)
      → IsThere (with_config host empty_config d x r)
  unfolding with_config
  with_config-IsThere d (raise e) r = λ sid was h. cc
  with_config-IsThere d (ok config) r = by_policy-IsThere (host.policy (forced_policy d)) config r

  registered-IsThere :
      (b : Body C) (r : Registry C T) → IsThere (register_session host empty_config b r)
  unfolding register_session
  registered-IsThere b r =
      with_config-IsThere (body_of b) (config_of (lookup (codes "config") (body_of b))) r

  -- A client that registers the id that it was answered comes back to its session. Whatever the first
  -- request was, and whatever id the host filed its session under: if it was answered with an id that is
  -- not empty, a second request with that id, with any configuration, is answered that it was
  -- reattached, and changes nothing, neither a twin nor the configuration. The host takes the id of the
  -- second request's policy and lets the client come back.
  pub reregistered_reattaches :
      (b : Body C) (c : ℕ) (cs : Text) (was : Bool) (config : Option C) (r : Registry C T)
      → (register_session host empty_config b r).0 ≡ ok (c ∷ cs, was)
      → host.policy (forced_policy (payload c cs config)) ≡ ok (some (c ∷ cs))
      → host.conflict (c ∷ cs) ≡ ok tt
      → let first = register_session host empty_config b r in
        register_session host empty_config (decoded (payload c cs config)) first.1
        ≡ (ok (c ∷ cs, true), first.1)
  unfolding register_session with_config
  reregistered_reattaches b c cs was config r answered takes free =
      let first = register_session host empty_config b r in
      rw (payload_config c cs config) (
        by_policy-named _ (c ∷ cs) config first.1 takes free
          (registered-IsThere b r (c ∷ cs) was answered))
