-- ===== src/Service/Plugin/Ownership/Retrying.antt =====
-- A client that repeats a lost request. src/digitaltwin/service/plugin.py and
-- src/digitaltwin/service/session.py.
use digital_twin_framework.Prelude.{
  Text, true, List, [], ◌∷◌, Option, none, some, ◌==◌, ==_iff, ==_refl, nat_eq, list_eq, Dict,
  lookup, insert, has, lookup-insert, ◌≡◌, ◌⊎◌, inl, inr, refl, arith, ap, sym, subst, ◌∙◌,
  Bool-cases, Option-cases,
}
use digital_twin_framework.Service.Plugin.{
  twin_reply, Session, Sessions, holds, twin_owner, twin_id_ok, session_twin_create, forward,
  twin_create, twin_create_as,
}
use digital_twin_framework.Service.Plugin.Ownership.Requests.{Request, serve_all, twin_ids_unique}
use digital_twin_framework.Service.Plugin.Ownership.{IsOwned, unowned, owner_holds, holds-insert}

insert_twice :
    {V : Type 0} (k : Text) (v : V) (d : Dict Text V) → insert k v (insert k v d) ≡ insert k v d
unfolding insert
insert_twice k v [] = ground (arith, ==_refl k)
insert_twice k v ((j, w) ∷ d) = ground (arith, ==_iff j k, ==_refl k, insert_twice k v d)

module _ {T : Type 0} where
  -- A session that has taken a request for a twin holds it, and takes the same request again without a
  -- change.
  taken_again :
      (i : Text) (t t' : T) (s : Session T)
      → (session_twin_create i t s).0 ≡ twin_reply
      → let s' = (session_twin_create i t s).1 in session_twin_create i t' s' ≡ (twin_reply, s')
  unfolding session_twin_create
  taken_again i t t' s h = elim (Bool-cases s.is_active) [
    | inl a ↦ elim (Bool-cases (has i s.twins)) [
      | inl p ↦ ground arith
      | inr p ↦ ground (arith, lookup-insert i i t s.twins, ==_refl i)
    ]
    | inr a ↦ absurd (ground arith)
  ]

  -- After a request of a session for a twin that no other session holds, no other one does.
  owner_after :
      (ss : Sessions T) (s : Session T) (i sid o : Text)
      → IsOwned ss
      → (twin_owner i ss ≡ none) ⊎ (twin_owner i ss ≡ some sid)
      → twin_owner i (insert sid s ss) ≡ some o
      → o ≡ sid
  owner_after ss s i sid o own (inl h) k =
      let held = owner_holds (insert sid s ss) i o k in
      ground (arith, held, holds-insert ss s i sid o, unowned ss i o h, ==_iff sid o)
  owner_after ss s i sid o own (inr h) k = elim (Bool-cases (sid == o)) [
    | inl e ↦ sym ((==_iff sid o).0 e)
    | inr e ↦
        let held : holds ss i o ≡ true =
          ground (arith, owner_holds (insert sid s ss) i o k, holds-insert ss s i sid o) in
        own.sole i o sid held (owner_holds ss i sid h)
  ]

  module _ (find_session : Text → Sessions T → Option (Session T))
      (finds : (k : Text) (ss : Sessions T) → find_session k ss ≡ lookup k ss) where
    -- What a request that was taken has found.
    record Taken (sid i : Text) (t : T) (ss : Sessions T) : Type 0 where
      session : Session T
      found : lookup sid ss ≡ some session
      owner : (twin_owner i ss ≡ none) ⊎ (twin_owner i ss ≡ some sid)
      legal : twin_id_ok i ≡ true
      took : (session_twin_create i t session).0 ≡ twin_reply
      after :
          (twin_create find_session sid i t ss).1
          ≡ insert sid (session_twin_create i t session).1 ss

    forwarded :
        (sid i : Text) (t : T) (ss : Sessions T)
        → (twin_owner i ss ≡ none) ⊎ (twin_owner i ss ≡ some sid)
        → twin_id_ok i ≡ true
        → twin_create find_session sid i t ss
          ≡ forward (lookup sid ss) sid (session_twin_create i t) ss
    unfolding twin_create twin_create_as
    forwarded sid i t ss (inl h) k = rw (k, h, finds sid ss) refl
    forwarded sid i t ss (inr h) k = rw (k, h, ==_refl sid, finds sid ss) refl

    owned_by :
        (sid i : Text) (t : T) (ss : Sessions T) (o : Option Text)
        → (twin_create_as find_session o sid i t ss).0 ≡ twin_reply
        → (o ≡ none) ⊎ (o ≡ some sid)
    unfolding twin_create_as
    owned_by sid i t ss none h = inl refl
    owned_by sid i t ss (some owner) h = elim (Bool-cases (owner == sid)) [
      | inl k ↦ inr (ap some ((==_iff owner sid).0 k))
      | inr k ↦ absurd (ground arith)
    ]

    owner_free :
        (sid i : Text) (t : T) (ss : Sessions T)
        → (twin_create find_session sid i t ss).0 ≡ twin_reply
        → ((twin_owner i ss ≡ none) ⊎ (twin_owner i ss ≡ some sid)) × (twin_id_ok i ≡ true)
    unfolding twin_create twin_create_as
    owner_free sid i t ss h = elim (Bool-cases (twin_id_ok i)) [
      | inl k ↦ (owned_by sid i t ss (twin_owner i ss) (ground arith), k)
      | inr k ↦ absurd (ground arith)
    ]

    taken :
        (sid i : Text) (t : T) (ss : Sessions T)
        → (twin_create find_session sid i t ss).0 ≡ twin_reply
        → Taken sid i t ss
    unfolding forward
    taken sid i t ss h =
        let (owner, legal) = owner_free sid i t ss h in
        let e = forwarded sid i t ss owner legal in
        let got =
          λ (o : Option (Session T)). (forward o sid (session_twin_create i t) ss).0 ≡ twin_reply in
        let h' : got (lookup sid ss) = sym (ap (λ r. r.0) e) ∙ h in
        elim (Option-cases (lookup sid ss)) [
          | inl n ↦ absurd (let r : got none = subst got n h' in cc)
          | inr (s, f) ↦ record {
            session = s;
            found = f;
            owner = owner;
            legal = legal;
            took = subst got f h';
            after = ap (λ r. r.1) e ∙ ap (λ o. (forward o sid (session_twin_create i t) ss).1) f;
          }
        ]

    owner_still :
        (ss : Sessions T) (s : Session T) (i sid : Text)
        → IsOwned ss
        → (twin_owner i ss ≡ none) ⊎ (twin_owner i ss ≡ some sid)
        → (twin_owner i (insert sid s ss) ≡ none) ⊎ (twin_owner i (insert sid s ss) ≡ some sid)
    owner_still ss s i sid own h = elim (Option-cases (twin_owner i (insert sid s ss))) [
      | inl n ↦ inl n
      | inr (o, k) ↦ inr (k ∙ ap some (owner_after ss s i sid o own h k))
    ]

    retried :
        (sid i : Text) (t t' : T) (ss : Sessions T)
        → IsOwned ss
        → (twin_create find_session sid i t ss).0 ≡ twin_reply
        → let ss' = (twin_create find_session sid i t ss).1 in
          twin_create find_session sid i t' ss' ≡ (twin_reply, ss')
    unfolding forward
    retried sid i t t' ss own h =
        let w = taken sid i t ss h in
        let s' = (session_twin_create i t w.session).1 in
        let ss' = insert sid s' ss in
        let e = forwarded sid i t' ss' (owner_still ss s' i sid own w.owner) w.legal in
        let there : lookup sid ss' ≡ some s' =
          ground (arith, lookup-insert sid sid s' ss, ==_refl sid) in
        let same = taken_again i t t' w.session w.took in
        let second : twin_create find_session sid i t' ss' ≡ (twin_reply, ss') =
          e
          ∙ ap (λ o. forward o sid (session_twin_create i t') ss') there
          ∙ ap (λ r. (r.0, insert sid r.1 ss')) same
          ∙ ap (λ z. (twin_reply, z)) (insert_twice sid s' ss) in
        subst (λ z. twin_create find_session sid i t' z ≡ (twin_reply, z)) (sym w.after) second

    -- A client may repeat a `twin_create` whose answer was lost. Whatever requests a plugin has served
    -- since it came up, over a host that finds the sessions that are there: after a request for a twin
    -- that was taken, the same request is taken again, and changes nothing.
    pub create_retried :
        (requests : List (Request T)) (sid i : Text) (t t' : T)
        → (twin_create find_session sid i t (serve_all find_session requests [])).0 ≡ twin_reply
        → let ss' = (twin_create find_session sid i t (serve_all find_session requests [])).1 in
          twin_create find_session sid i t' ss' ≡ (twin_reply, ss')
    create_retried requests sid i t t' h =
        retried sid i t t' (serve_all find_session requests [])
          (twin_ids_unique find_session finds requests) h
