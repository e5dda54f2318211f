-- ===== src/Service/Plugin/Ownership/Requests.antt =====
-- Sequences of requests to a plugin, and the ids of the twins that it holds after them.
-- src/digitaltwin/service/plugin.py, src/digitaltwin/service/session.py.
use digital_twin_framework.Dtype.{Dtype}
use digital_twin_framework.Prelude.{
  Text, Bool, true, false, List, [], ◌∷◌, Option, none, some, ◌==◌, nat_eq, list_eq, lookup, insert,
  has, if◌then◌else◌, ◌≡◌, refl, arith, ==_iff, lookup-insert, lookup-erase, ok, sym, subst, inl,
  inr, ◌⊎◌, false≢true,
}
use digital_twin_framework.Service.Plugin.{
  bad_value, Reply, refused, Session, Sessions, twin_id_ok, new_session, holds, twin_owner,
  register_session, session_twin_create, session_twin_close, session_close, forward, twin_create,
  twin_create_as, twin_close, unregister_session, close_session,
}
use digital_twin_framework.Stream.Topic.{check_namespace, topic, topic-injective}
use digital_twin_framework.Service.Plugin.Ownership.{
  IsOwned, twin_id_ok-check_namespace, unowned, owner_holds, insert-IsOwned, erase-IsOwned,
}

-- What reaches the plugin's sessions.
pub data Request (T : Type 0) : Type 0 where
  registering : Text → Request T
  creating : Text → Text → T → Request T
  closing : Text → Text → Request T
  ending unregistering : Text → Request T

module _ {T : Type 0} (find_session : Text → Sessions T → Option (Session T)) where
  unfoldable pub serve : Request T → Sessions T → Sessions T
  unfolding register_session twin_create twin_close close_session
  serve (registering sid) ss = register_session sid ss
  serve (creating sid i fresh) ss = (twin_create find_session sid i fresh ss).1
  serve (closing sid i) ss = (twin_close find_session sid i ss).1
  serve (ending sid) ss = close_session sid ss
  serve (unregistering sid) ss = unregister_session sid ss

  unfoldable pub serve_all : List (Request T) → Sessions T → Sessions T
  unfolding serve
  serve_all [] ss = ss
  serve_all (r ∷ rs) ss = serve_all rs (serve r ss)

module _ {T : Type 0} where
  held :
      (ss : Sessions T) (sid i : Text) (s : Session T)
      → lookup sid ss ≡ some s
      → has i s.twins ≡ true
      → holds ss i sid ≡ true
  unfolding holds
  held ss sid i s l h = ground arith

  created-has :
      (s : Session T) (i j : Text) (fresh : T)
      → has j (session_twin_create i fresh s).1.twins ≡ true
      → (has j s.twins ≡ true) ⊎ (i ≡ j)
  unfolding session_twin_create
  created-has s i j fresh h = ground (arith, lookup-insert i j fresh s.twins, ==_iff i j)

  closed-has :
      (s : Session T) (i j : Text)
      → has j (session_twin_close i s).1.twins ≡ true
      → has j s.twins ≡ true
  unfolding session_twin_close
  closed-has s i j h = ground (arith, lookup-erase i j s.twins)

  if-IsOwned :
      (b : Bool) (x y : Reply × Sessions T)
      → (b ≡ true → IsOwned x.1)
      → (b ≡ false → IsOwned y.1)
      → IsOwned (if b then x else y).1
  if-IsOwned true x y h k = h refl
  if-IsOwned false x y h k = k refl

  registered-IsOwned :
      (sid : Text) (ss : Sessions T) (b : Bool)
      → IsOwned ss
      → IsOwned (if b then ss else insert sid new_session ss)
  unfolding new_session lookup
  registered-IsOwned sid ss true h = h
  registered-IsOwned sid ss false h =
      insert-IsOwned ss sid new_session h (λ i p. absurd (false≢true p))

  ended-IsOwned :
      (sid : Text) (ss : Sessions T) (o : Option (Session T))
      → IsOwned ss
      → IsOwned (elim o [ none ↦ ss | some s ↦ insert sid (session_close s) ss ])
  unfolding session_close lookup
  ended-IsOwned sid ss none h = h
  ended-IsOwned sid ss (some s) h =
      insert-IsOwned ss sid (session_close s) h (λ i p. absurd (false≢true p))

  -- `_forward` keeps what its session call keeps.
  forward-IsOwned :
      (ss : Sessions T) (sid : Text) (o : Option (Session T)) (f : Session T → Reply × Session T)
      → IsOwned ss
      → lookup sid ss ≡ o
      → ((i : Text) (s : Session T)
          → has i (f s).1.twins ≡ true
          → (has i s.twins ≡ true)
            ⊎ ((check_namespace i ≡ ok tt)
                × ((holds ss i sid ≡ true) ⊎ ((t : Text) → holds ss i t ≡ false))))
      → IsOwned (forward o sid f ss).1
  unfolding forward
  forward-IsOwned ss sid none f h l k = h
  forward-IsOwned ss sid (some s) f h l k = insert-IsOwned ss sid (f s).1 h (λ i p. elim (k i s p) [
    | inl q ↦ inl (held ss sid i s l q)
    | inr q ↦ elim q.1 [ inl o ↦ inl o | inr n ↦ inr (q.0, n) ]
  ])

empty-IsOwned : {T : Type 0} → IsOwned {T = T} []
unfolding holds lookup
empty-IsOwned = record {
  legal = λ i s p. absurd (false≢true p);
  sole = λ i s t p q. absurd (false≢true p);
}

module _ {T : Type 0} (find_session : Text → Sessions T → Option (Session T))
    (finds : (sid : Text) (ss : Sessions T) → find_session sid ss ≡ lookup sid ss) where
  created-IsOwned :
      (ss : Sessions T) (sid i : Text) (fresh : T) (o : Option Text)
      → IsOwned ss
      → check_namespace i ≡ ok tt
      → twin_owner i ss ≡ o
      → IsOwned (twin_create_as find_session o sid i fresh ss).1
  unfolding twin_create_as
  created-IsOwned ss sid i fresh none h c own =
      forward-IsOwned ss sid (find_session sid ss) (session_twin_create i fresh) h
        (sym (finds sid ss))
        (λ j s p. elim (created-has s i j fresh p) [
          | inl q ↦ inl q
          | inr e ↦ inr (
            subst (λ k. check_namespace k ≡ ok tt) e c,
            inr (λ t. subst (λ k. holds ss k t ≡ false) e (unowned ss i t own)),
          )
        ])
  created-IsOwned ss sid i fresh (some owner) h c own =
      if-IsOwned (owner == sid) (forward (find_session sid ss) sid (session_twin_create i fresh) ss)
        (refused bad_value, ss)
        (λ e.
          let mine : holds ss i sid ≡ true =
            subst (λ o. holds ss i o ≡ true) ((==_iff owner sid).0 e)
              (owner_holds ss i owner own) in
          forward-IsOwned ss sid (find_session sid ss) (session_twin_create i fresh) h
            (sym (finds sid ss))
            (λ j s p. elim (created-has s i j fresh p) [
              | inl q ↦ inl q
              | inr q ↦ inr (
                subst (λ k. check_namespace k ≡ ok tt) q c,
                inl (subst (λ k. holds ss k sid ≡ true) q mine),
              )
            ]))
        (λ e. h)

  pub served-IsOwned :
      (r : Request T) (ss : Sessions T) → IsOwned ss → IsOwned (serve find_session r ss)
  unfolding serve register_session close_session twin_create twin_close
  served-IsOwned (registering sid) ss h = registered-IsOwned sid ss (has sid ss) h
  served-IsOwned (creating sid i fresh) ss h =
      if-IsOwned (twin_id_ok i) (twin_create_as find_session (twin_owner i ss) sid i fresh ss)
        (refused bad_value, ss)
        (λ e.
          created-IsOwned ss sid i fresh (twin_owner i ss) h (twin_id_ok-check_namespace i e) refl)
        (λ e. h)
  served-IsOwned (closing sid i) ss h =
      forward-IsOwned ss sid (find_session sid ss) (session_twin_close i) h (sym (finds sid ss))
        (λ j s p. inl (closed-has s i j p))
  served-IsOwned (ending sid) ss h = ended-IsOwned sid ss (lookup sid ss) h
  served-IsOwned (unregistering sid) ss h = erase-IsOwned ss sid h

  served_all-IsOwned :
      (rs : List (Request T)) (ss : Sessions T)
      → IsOwned ss
      → IsOwned (serve_all find_session rs ss)
  unfolding serve_all
  served_all-IsOwned [] ss h = h
  served_all-IsOwned (r ∷ rs) ss h =
      served_all-IsOwned rs (serve find_session r ss) (served-IsOwned r ss h)

  -- Whatever a plugin without sessions is asked to do, over a host that looks sessions up by their
  -- ids: two sessions never hold the same twin id, and every twin id is one that a stream client
  -- accepts as its namespace.
  pub twin_ids_unique : (rs : List (Request T)) → IsOwned (serve_all find_session rs [])
  twin_ids_unique rs = served_all-IsOwned rs [] empty-IsOwned

  -- After any requests to a plugin that had no sessions, over a host that looks sessions up by their
  -- ids, held twins that use one topic, for any data types, are one twin: they have
  -- the same id and the same session.
  pub held_twins_separate :
      (rs : List (Request T)) (s t i j : Text) (d f : Dtype)
      → holds (serve_all find_session rs []) i s ≡ true
      → holds (serve_all find_session rs []) j t ≡ true
      → topic i d ≡ topic j f
      → (i ≡ j) × (s ≡ t)
  held_twins_separate rs s t i j d f p q e =
      let own = twin_ids_unique rs in
      let ss = serve_all find_session rs [] in
      let same = (topic-injective i j d f (own.legal i s p) (own.legal j t q) e).0 in
      (same, own.sole j s t (subst (λ k. holds ss k s ≡ true) same p) q)
