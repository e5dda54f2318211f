-- ===== src/Service/Calls/Answered.antt =====
-- A call that meets every guard on its way is answered by its handler.
-- src/digitaltwin/service/plugin.py and src/digitaltwin/service/session.py.
use digital_twin_framework.Prelude.{
  Text, Bool, true, Option, some, [], ◌∷◌, lookup, insert, contains, nat_eq, list_eq, ok, ◌≡◌, ◌≢◌,
  refl, ◌∙◌, Dict,
}
use digital_twin_framework.Runtime.Lifecycle.{Life}
use digital_twin_framework.Service.Wire.{check_versions}
use digital_twin_framework.Service.Twin.{Twin, of_runtime, state, live, live_twin}
use digital_twin_framework.Service.Plugin.{Session, Sessions}
use digital_twin_framework.Service.Calls.{
  verbs, Answer, Request, Host, Ended, answer_of, run_verb, applied, call_live, decoded,
  decode_call, session_call, call_in, twin_call,
}

module _ {A J : Type 0} (host : Host A J)
    (find_session : Text → Sessions (Twin J) → Option (Session (Twin J))) where
  -- A session in which a twin takes a verb: it is known and active, and the twin has a runtime.
  pub record IsOpen (sid i : Text) (ss : Sessions (Twin J)) (s : Session (Twin J)) (t : Twin J)
      (l : Life J) : Type 0 where
    pub there : find_session sid ss ≡ some s
    pub is_active : s.is_active ≡ true
    pub has_twin : lookup i s.twins ≡ some t
    pub has_runtime : t.runtime ≡ some l

  -- What the client gets, and the sessions once the handler has ended.
  abbrev pub after :
      Text
      → Text
      → Sessions (Twin J)
      → Session (Twin J)
      → Twin J
      → Ended × Life J
      → Answer × Bool × Sessions (Twin J)
  after sid i ss s t (out, l) = (
    answer_of (of_runtime l.state) out,
    true,
    insert sid (record s { twins = insert i (record t { runtime = some l }) s.twins }) ss,
  )

  decode_sent :
      (r : Request) (args : A) (blob : Text) (s : Session (Twin J))
      → blob ≢ []
      → host.decode blob ≡ ok (some args)
      → decode_call host r (ok tt) (some blob) s
        ≡ call_live host r args (live_twin r.twin_id s.twins) s
  unfolding decode_call decoded
  decode_sent r args [] s h e = absurd (h refl)
  decode_sent r args (c ∷ blob) s h e = rw e refl

  -- The request of a verb with a payload.
  abbrev pub carrying : Text → Text → Text → Dict Text Text → Request
  carrying i verb blob stamp = record {
    twin_id = i;
    verb = verb;
    payload = some blob;
    stamp = stamp;
  }

  session-after :
      (i verb blob : Text) (stamp : Dict Text Text) (args : A) (s : Session (Twin J))
      → s.is_active ≡ true
      → check_versions host.ours stamp ≡ ok tt
      → blob ≢ []
      → host.decode blob ≡ ok (some args)
      → session_call host (carrying i verb blob stamp) s
        ≡ call_live host (carrying i verb blob stamp) args (live_twin i s.twins) s
  unfolding session_call
  session-after i verb blob stamp args s active compatible full inverse =
      (rw (active, compatible) refl)
      ∙ decode_sent (carrying i verb blob stamp) args blob s full inverse

  pub twin_call-after :
      (sid i verb blob : Text) (stamp : Dict Text Text) (args : A) (ss : Sessions (Twin J))
      (s : Session (Twin J)) (t : Twin J) (l : Life J)
      → contains verbs verb ≡ true
      → check_versions host.ours stamp ≡ ok tt
      → blob ≢ []
      → host.decode blob ≡ ok (some args)
      → IsOpen sid i ss s t l
      → twin_call host find_session sid (carrying i verb blob stamp) ss
        ≡ after sid i ss s t (run_verb host verb args l)
  unfolding twin_call call_in call_live live_twin live applied state
  twin_call-after sid i verb blob stamp args ss s t l known compatible full inverse h =
      let reached = session-after i verb blob stamp args s h.is_active compatible full inverse in
      rw (known, h.there, reached, h.has_twin, h.has_runtime, h.has_twin) refl
