-- ===== src/Service/Plugin/Ownership.antt =====
-- The sessions that hold a twin id, and what operations on the dict of sessions do to them.
-- src/digitaltwin/service/plugin.py.
pub mod Requests
pub mod Retrying
use digital_twin_framework.Dtype.{Dtype}
use digital_twin_framework.Prelude.{
  ℕ, Text, codes, Bool, true, false, ◌||◌, ◌&&◌, not, List, [], ◌∷◌, Option, none, some, Eq, ◌==◌,
  nat_eq, list_eq, Dict, lookup, insert, erase, has, keys, find, contains, if◌then◌else◌, ◌≡◌, ◌≢◌,
  refl, arith, ==_iff, lookup-insert, lookup-erase, contains-keys, Result, ok, raise, sym, ◌∙◌, ap,
  subst, Bool-cases, inl, inr, ◌⊎◌, false≢true,
}
use digital_twin_framework.Service.Plugin.{
  Refusal, status, bad_value, Reply, twin_reply, closed_reply, refused, Session, Sessions,
  twin_id_ok, new_session, holds, twin_owner, register_session, session_twin_create,
  session_twin_close, session_close, forward, twin_create, twin_create_as, twin_close,
  unregister_session, close_session,
}
use digital_twin_framework.Stream.Topic.{check_namespace, topic, topic-injective}

-- Every twin id is a legal stream namespace, and no two sessions hold the same one.
pub record IsOwned {T : Type 0} (ss : Sessions T) : Type 0 where
  pub legal : (i s : Text) → holds ss i s ≡ true → check_namespace i ≡ ok tt
  pub sole : (i s t : Text) → holds ss i s ≡ true → holds ss i t ≡ true → s ≡ t

pub twin_id_ok-check_namespace : (i : Text) → twin_id_ok i ≡ true → check_namespace i ≡ ok tt
unfolding twin_id_ok check_namespace
twin_id_ok-check_namespace i h = ground arith

find-none :
    (p : Text → Bool) (l : List Text) (a : Text)
    → find p l ≡ none
    → contains l a ≡ true
    → p a ≡ false
find-none p [] a h k = ground arith
find-none p (x ∷ l) a h k = elim (Bool-cases (x == a)) [
  | inl e ↦ let same : x ≡ a = (==_iff x a).0 e in subst (λ b. p b ≡ false) same (ground arith)
  | inr e ↦ find-none p l a (ground arith) (ground arith)
]

find-some : (p : Text → Bool) (l : List Text) (a : Text) → find p l ≡ some a → p a ≡ true
find-some p [] a h = ground arith
find-some p (x ∷ l) a h = elim (Bool-cases (p x)) [
  | inl e ↦ let same : x ≡ a = ground arith in subst (λ b. p b ≡ true) same e
  | inr e ↦ find-some p l a (ground arith)
]

module _ {T : Type 0} where
  holds-keys : (ss : Sessions T) (i s : Text) → holds ss i s ≡ true → contains (keys ss) s ≡ true
  unfolding holds
  holds-keys ss i s h = ground (arith, contains-keys s ss)

  pub unowned : (ss : Sessions T) (i s : Text) → twin_owner i ss ≡ none → holds ss i s ≡ false
  unfolding twin_owner
  unowned ss i s h = elim (Bool-cases (holds ss i s)) [
    | inl e ↦ find-none (holds ss i) (keys ss) s h (holds-keys ss i s e)
    | inr e ↦ e
  ]

  pub owner_holds : (ss : Sessions T) (i s : Text) → twin_owner i ss ≡ some s → holds ss i s ≡ true
  unfolding twin_owner
  owner_holds ss i s h = find-some (holds ss i) (keys ss) s h

  -- Under an assignment to a session, `holds` looks at the new one there.
  pub holds-insert :
      (ss : Sessions T) (s : Session T) (i sid t : Text)
      → holds (insert sid s ss) i t ≡ (if sid == t then has i s.twins else holds ss i t)
  unfolding holds
  holds-insert ss s i sid t = ground (arith, lookup-insert sid t s ss)

  pub holds-erase :
      (ss : Sessions T) (i sid t : Text)
      → holds (erase sid ss) i t ≡ (if sid == t then false else holds ss i t)
  unfolding holds
  holds-erase ss i sid t = ground (arith, lookup-erase sid t ss)

  insert-IsOwned :
      (ss : Sessions T) (sid : Text) (s : Session T)
      → IsOwned ss
      → ((i : Text)
          → has i s.twins ≡ true
          → (holds ss i sid ≡ true)
            ⊎ ((check_namespace i ≡ ok tt) × ((t : Text) → holds ss i t ≡ false)))
      → IsOwned (insert sid s ss)
  insert-IsOwned ss sid s h new = record {
    legal = λ i a p. elim (Bool-cases (sid == a)) [
      | inl e ↦ elim (new i (ground (arith, holds-insert ss s i sid a))) [
        | inl q ↦ h.legal i sid q
        | inr q ↦ q.0
      ]
      | inr e ↦ h.legal i a (ground (arith, holds-insert ss s i sid a))
    ];
    sole = λ i a b p q. sole i a b p q;
  }
    where
      -- One session is new, the other is as it was.
      across : (i b : Text) → has i s.twins ≡ true → holds ss i b ≡ true → sid ≡ b
      across i b p q = elim (new i p) [
        | inl o ↦ h.sole i sid b o q
        | inr o ↦ absurd (false≢true (sym (o.1 b) ∙ q))
      ]

      sole :
          (i a b : Text)
          → holds (insert sid s ss) i a ≡ true
          → holds (insert sid s ss) i b ≡ true
          → a ≡ b
      sole i a b p q = elim (Bool-cases (sid == a)) [
        | inl e ↦ elim (Bool-cases (sid == b)) [
          | inl f ↦ sym ((==_iff sid a).0 e) ∙ (==_iff sid b).0 f
          | inr f ↦
              sym ((==_iff sid a).0 e)
              ∙ across i b (ground (arith, holds-insert ss s i sid a))
                  (ground (arith, holds-insert ss s i sid b))
        ]
        | inr e ↦ elim (Bool-cases (sid == b)) [
          | inl f ↦ sym (
              sym ((==_iff sid b).0 f)
              ∙ across i a (ground (arith, holds-insert ss s i sid b))
                  (ground (arith, holds-insert ss s i sid a)))
          | inr f ↦
              h.sole i a b (ground (arith, holds-insert ss s i sid a))
                (ground (arith, holds-insert ss s i sid b))
        ]
      ]

  erase-IsOwned : (ss : Sessions T) (sid : Text) → IsOwned ss → IsOwned (erase sid ss)
  erase-IsOwned ss sid h = record {
    legal = λ i a p. h.legal i a (ground (arith, holds-erase ss i sid a));
    sole = λ i a b p q.
        h.sole i a b (ground (arith, holds-erase ss i sid a))
          (ground (arith, holds-erase ss i sid b));
  }
