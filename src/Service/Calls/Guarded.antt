-- ===== src/Service/Calls/Guarded.antt =====
-- When a service unpickles what a client sent, and what a stopped twin answers.
-- src/digitaltwin/service/plugin.py and src/digitaltwin/service/session.py.
use digital_twin_framework.Prelude.{
  Text, codes, true, false, Option, none, some, Dict, lookup, contains, nat_eq, list_eq, Result, ok,
  raise, ◌≡◌, refl, ap, Eq, ◌∙◌, runtime_error, arith, Bool-cases, inl, inr, lookup-insert, ==_refl,
  list_beq,
}
use digital_twin_framework.Runtime.Lifecycle
use digital_twin_framework.Runtime.Lifecycle.{
  Life, stopped, closed, returned, was_cancelled, raised_error,
}
use digital_twin_framework.Runtime.Lifecycle.Terminal.{
  Step, starting, stopping, spawning, ending, reporting, cancelling, closing, Reach, here, next,
}
use digital_twin_framework.Service.Wire.{check_versions}
use digital_twin_framework.Service.Twin.{Twin, of_runtime, state, live, live_twin}
use digital_twin_framework.Service.Plugin.{Session, Sessions, status}
use digital_twin_framework.Service.Calls.{
  verbs, answered, refused, Request, Host, Ended, finished, threw, client_error, answer_of, started,
  run_verb, applied, call_live, decode_call, session_call, call_in, twin_call,
}

module _ {A J : Type 0} (host : Host A J) where
  compatible_first :
      (r : Request) (v : Result (Unit {0})) (p : Option Text) (s : Session (Twin J))
      → (decode_call host r v p s).unpickled ≡ true
      → v ≡ ok tt
  unfolding decode_call
  compatible_first r (raise e) p s h = cc
  compatible_first r (ok u) p s h = refl

  session_guarded :
      (r : Request) (s : Session (Twin J))
      → (session_call host r s).unpickled ≡ true
      → (s.is_active ≡ true) × (check_versions host.ours r.stamp ≡ ok tt)
  unfolding session_call
  session_guarded r s h = elim (Bool-cases s.is_active) [
    | inl a ↦
        let k : (decode_call host r (check_versions host.ours r.stamp) r.payload s).unpickled
            ≡ true =
          ground arith in
        (a, compatible_first r (check_versions host.ours r.stamp) r.payload s k)
    | inr a ↦ absurd (ground arith)
  ]

  module _ (find_session : Text → Sessions (Twin J) → Option (Session (Twin J))) where
    found_guarded :
        (sid : Text) (r : Request) (o : Option (Session (Twin J))) (ss : Sessions (Twin J))
        → (call_in host find_session sid r o ss).1 ≡ true
        → (s : Session (Twin J)) × (o ≡ some s)
          × (s.is_active ≡ true)
          × (check_versions host.ours r.stamp ≡ ok tt)
    unfolding call_in
    found_guarded sid r none ss h = cc
    found_guarded sid r (some s) ss h = let (a, b) = session_guarded r s h in (s, refl, a, b)

    -- Unpickling is running a client's code. The service does it only for a verb that it knows, in a
    -- session that exists and is active, and for a client whose versions it accepts.
    pub unpickling_guarded :
        (sid : Text) (r : Request) (ss : Sessions (Twin J))
        → (twin_call host find_session sid r ss).1 ≡ true
        → (contains verbs r.verb ≡ true)
          × ((s : Session (Twin J)) × (find_session sid ss ≡ some s)
              × (s.is_active ≡ true)
              × (check_versions host.ours r.stamp ≡ ok tt))
    unfolding twin_call
    unpickling_guarded sid r ss h = elim (Bool-cases (contains verbs r.verb)) [
      | inl k ↦ (k, found_guarded sid r (find_session sid ss) ss (ground arith))
      | inr k ↦ absurd (ground arith)
    ]

  -- A call without a payload.
  abbrev pub bare : Text → Text → Dict Text Text → Request
  bare i verb stamp = record { twin_id = i; verb = verb; payload = none; stamp = stamp }

  -- A session in which a twin takes the calls of a client.
  pub record Takes (s : Session (Twin J)) (i : Text) (t : Twin J) (l : Life J)
      (stamp : Dict Text Text) : Type 0 where
    pub is_active : s.is_active ≡ true
    pub there : lookup i s.twins ≡ some t
    pub live : t.runtime ≡ some l
    pub compatible : check_versions host.ours stamp ≡ ok tt
    pub bare_call : host.has_none host.no_args ≡ true

  bare_run :
      (s : Session (Twin J)) (i verb : Text) (t : Twin J) (l : Life J) (stamp : Dict Text Text)
      → Takes s i t l stamp
      → session_call host (bare i verb stamp) s
        ≡ record (applied host i (some t) (run_verb host verb host.no_args l) s) {
          unpickled = false;
        }
  unfolding session_call decode_call call_live live_twin live
  bare_run s i verb t l stamp h = rw (h.is_active, h.compatible, h.there, h.live, h.there) refl

  -- The runtime that a verb leaves.
  abbrev pub with_life : Twin J → Life J → Twin J
  with_life t l = record t { runtime = some l }

  bare_verb :
      (s : Session (Twin J)) (i verb : Text) (t : Twin J) (l l' : Life J) (out : Ended)
      (stamp : Dict Text Text)
      → Takes s i t l stamp
      → run_verb host verb host.no_args l ≡ (out, l')
      → let c = session_call host (bare i verb stamp) s in
        (c.answer ≡ answer_of (of_runtime l'.state) out)
        × Takes c.session i (with_life t l') l' stamp
  unfolding applied state
  bare_verb s i verb t l l' out stamp h e =
      rw (bare_run s i verb t l stamp h, e)
        (
          refl,
          record {
            is_active = h.is_active;
            there = ground (arith, ==_refl i, lookup-insert i i (with_life t l') s.twins);
            live = refl;
            compatible = h.compatible;
            bare_call = h.bare_call;
          },
        )

  -- The life cycle that a stop leaves when it returns.
  abbrev pub after_stop : Life J → Life J
  after_stop l = Lifecycle.await_teardown host.closes (Lifecycle.stop l)

  stop_verb :
      (l : Life J)
      → host.has_none host.no_args ≡ true
      → run_verb host (codes "stop") host.no_args l ≡ (finished, after_stop l)
  unfolding run_verb list_beq
  stop_verb l h = rw h refl

  record IsOver (l : Life J) : Type 0 where
    is_stopped : l.state ≡ stopped
    torn_down : l.stop_task ≡ some closed

  after_stop-IsOver : (l : Life J) → l.stop_task ≡ none → IsOver (after_stop l)
  unfolding Lifecycle.stop Lifecycle.await_teardown Lifecycle.teardown_cancel
      Lifecycle.teardown_close Lifecycle.record_error
  after_stop-IsOver l h = ground arith

  stopped_life :
      (l : Life J) → IsOver l → (after_stop l ≡ l) × (Lifecycle.start l ≡ (raise runtime_error, l))
  unfolding Lifecycle.stop Lifecycle.start Lifecycle.await_teardown
  stopped_life l h = (ground (arith, h.torn_down), ground (arith, h.is_stopped))

  start_verb :
      (l : Life J)
      → host.has_none host.no_args ≡ true
      → Lifecycle.start l ≡ (raise runtime_error, l)
      → run_verb host (codes "start") host.no_args l ≡ (threw client_error, l)
  unfolding run_verb started list_beq
  start_verb l h e = rw (h, e) refl

  module _ ⦃e : Eq J⦄ where
    Step-IsOver : {l m : Life J} → Step l m → IsOver l → IsOver m
    unfolding Lifecycle.start Lifecycle.stop Lifecycle.spawn Lifecycle.task_done
        Lifecycle.record_error Lifecycle.teardown_cancel Lifecycle.teardown_close
    Step-IsOver {l} starting h = ground (arith, h.is_stopped, h.torn_down)
    Step-IsOver {l} stopping h = ground (arith, h.is_stopped, h.torn_down)
    Step-IsOver {l} (spawning j) h = ground (arith, h.is_stopped, h.torn_down)
    Step-IsOver {l} (ending j returned) h = ground (arith, h.is_stopped, h.torn_down)
    Step-IsOver {l} (ending j was_cancelled) h = ground (arith, h.is_stopped, h.torn_down)
    Step-IsOver {l} (ending j (raised_error x)) h = ground (arith, h.is_stopped, h.torn_down)
    Step-IsOver {l} (reporting error) h = ground (arith, h.is_stopped, h.torn_down)
    Step-IsOver {l} (cancelling s) h = ground (arith, h.is_stopped, h.torn_down)
    Step-IsOver {l} (closing error s) h = ground (arith, h.is_stopped, h.torn_down)

    Reach-IsOver : {l m : Life J} → IsOver l → Reach l m → IsOver m
    Reach-IsOver h here = h
    Reach-IsOver h (next r st) = Step-IsOver st (Reach-IsOver h r)

    -- Stopping a twin is final and can be repeated. For a twin that takes calls and that nothing has
    -- begun to tear down, a client's stop is answered with `stopped` once the teardown is over. From
    -- then on, whatever happened to the twin's life cycle since, and in whatever session it takes
    -- calls then: a stop is answered in the same way, a start is refused with 409, and either leaves
    -- the twin as it was.
    pub stop_is_final :
        (s s' : Session (Twin J)) (i : Text) (t t' : Twin J) (l l' : Life J)
        (stamp : Dict Text Text)
        → Takes s i t l stamp
        → l.stop_task ≡ none
        → Reach (after_stop l) l'
        → Takes s' i t' l' stamp
        → let first = session_call host (bare i (codes "stop") stamp) s in
          let again = session_call host (bare i (codes "stop") stamp) s' in
          let start = session_call host (bare i (codes "start") stamp) s' in
          (first.answer ≡ answered (of_runtime stopped))
          × (lookup i first.session.twins ≡ some (with_life t (after_stop l)))
          × (again.answer ≡ answered (of_runtime stopped))
          × (lookup i again.session.twins ≡ some (with_life t' l'))
          × (start.answer ≡ refused (status 409))
          × (lookup i start.session.twins ≡ some (with_life t' l'))
    unfolding answer_of
    stop_is_final s s' i t t' l l' stamp h k r h' =
        let over = after_stop-IsOver l k in
        let over' = Reach-IsOver over r in
        let (same, refusal) = stopped_life l' over' in
        let (a1, h1) =
          bare_verb s i (codes "stop") t l (after_stop l) finished stamp h
            (stop_verb l h.bare_call) in
        let (a2, h2) =
          bare_verb s' i (codes "stop") t' l' l' finished stamp h'
            (stop_verb l' h'.bare_call ∙ ap (λ z. (finished, z)) same) in
        let (a3, h3) =
          bare_verb s' i (codes "start") t' l' l' (threw client_error) stamp h'
            (start_verb l' h'.bare_call refusal) in
        (
          a1 ∙ ap (λ z. answered (of_runtime z)) over.is_stopped,
          h1.there,
          a2 ∙ ap (λ z. answered (of_runtime z)) over'.is_stopped,
          h2.there,
          a3,
          h3.there,
        )
