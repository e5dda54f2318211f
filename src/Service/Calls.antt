-- ===== src/Service/Calls.antt =====
-- A graph verb on its way to a twin: `PluginDT.twin_call`, src/digitaltwin/service/plugin.py, and
-- `DTSession.twin_call` with the verbs that its life cycle answers, src/digitaltwin/service/session.py.
-- Unpickling, and the verbs on the graph, which `Runtime.Graph` and `Runtime.Run` are about, are
-- parameters.
pub mod Guarded
pub mod Answered
use digital_twin_framework.Prelude.{
  ℕ, Text, codes, Bool, true, false, not, List, [], ◌∷◌, Option, none, some, Dict, lookup, insert,
  contains, ◌==◌, nat_eq, list_eq, Result, ok, raise, Error, value_error, runtime_error, key_error,
  type_error, assertion_error, timeout_error, index_error, if◌then◌else◌,
}
use digital_twin_framework.Runtime.Lifecycle
use digital_twin_framework.Runtime.Lifecycle.{Life}
use digital_twin_framework.Service.Wire.{Versions, check_versions}
use digital_twin_framework.Service.Twin.{Twin, TwinState, state, live_twin}
use digital_twin_framework.Service.Plugin.{
  Session, Sessions, Refusal, status, bad_value, unknown_session,
}

abbrev pub verbs : List Text
verbs =
    codes "add_task"
    ∷ codes "add_investigator"
    ∷ codes "add_agent"
    ∷ codes "start"
    ∷ codes "stop"
    ∷ codes "describe"
    ∷ codes "get_inference"
    ∷ []

-- What a verb's handler may raise, as far as `twin_call` tells it apart: an answer of its own, a
-- cancellation, which the call itself is the target of or not, a timeout, one of the four exceptions
-- that count as the client's, or anything else.
pub data Failure : Type 0 where
  http : ℕ → Failure
  cancelled : Bool → Failure
  timed_out client_error unexpected : Failure

pub data Ended : Type 0 where
  finished : Ended
  threw : Failure → Ended

-- What `twin_call` makes of the program's own exceptions.
abbrev pub failure_of : Error → Failure
failure_of value_error = client_error
failure_of runtime_error = client_error
failure_of type_error = client_error
failure_of assertion_error = client_error
failure_of timeout_error = timed_out
failure_of key_error = unexpected
failure_of index_error = unexpected

-- What the client gets, by the state of the twin, or that the exception goes on to the host. The last
-- error, which stands beside the state, and the extra fields of an answer are left out; the fields are
-- those of `Service.Verbs.Reply`.
pub data Answer : Type 0 where
  answered : TwinState → Answer
  refused : Refusal → Answer
  propagated : Answer

-- `unpickled` says whether the payload was decoded on the way.
pub record Called (J : Type 0) : Type 0 where
  pub answer : Answer
  pub unpickled : Bool
  pub session : Session (Twin J)

-- A request: the twin, the verb, and what the client sent along.
pub record Request : Type 0 where
  pub twin_id : Text
  pub verb : Text
  pub payload : Option Text
  pub stamp : Dict Text Text

unfoldable pub answer_of : TwinState → Ended → Answer
answer_of s finished = answered s
answer_of s (threw (http n)) = refused (status n)
answer_of s (threw (cancelled true)) = propagated
answer_of s (threw (cancelled false)) = refused (status 409)
answer_of s (threw timed_out) = refused (status 504)
answer_of s (threw client_error) = refused (status 409)
answer_of s (threw unexpected) = propagated

-- What the code of others and the graph give: the decoder, which may raise and may not give a `dict`,
-- the call without arguments, whether a call has none, what a close of the stream client raises other
-- than a timeout, and the other verbs.
pub record Host (A J : Type 0) : Type 0 where
  pub ours : Versions
  pub decode : Text → Result (Option A)
  pub no_args : A
  pub has_none : A → Bool
  pub closes : Option Text
  pub graph_verb : Text → A → Life J → Ended × Life J

module _ {A J : Type 0} (host : Host A J) where
  unfoldable pub started : Result (Unit {0}) × Life J → Ended × Life J
  started (ok u, l) = (finished, l)
  started (raise e, l) = (threw (failure_of e), l)

  -- The handler of a verb, when it has ended; `_verb_stop` waits for the teardown. An argument too
  -- many is a `TypeError`.
  unfoldable pub run_verb : Text → A → Life J → Ended × Life J
  unfolding started
  run_verb verb args l =
      if verb == codes "start"
      then (if host.has_none args then started (Lifecycle.start l) else (threw client_error, l))
      else if verb == codes "stop"
      then (if host.has_none args
          then (finished, Lifecycle.await_teardown host.closes (Lifecycle.stop l))
          else (threw client_error, l))
      else if verb == codes "describe"
      then (if host.has_none args then (finished, l) else (threw client_error, l))
      else host.graph_verb verb args l

  -- A verb that was applied to the runtime of a twin.
  applied : Text → Option (Twin J) → Ended × Life J → Session (Twin J) → Called J
  unfolding answer_of
  applied i none r s = record { answer = refused (status 404); unpickled = true; session = s }
  applied i (some t) (out, l) s =
      let t' = record t { runtime = some l } in
      record {
        answer = answer_of (state t') out;
        unpickled = true;
        session = record s { twins = insert i t' s.twins };
      }

  -- `_live_twin`, and the handler.
  call_live : Request → A → ℕ × Option (Life J) → Session (Twin J) → Called J
  unfolding applied run_verb
  call_live r args (n, none) s = record {
    answer = refused (status n);
    unpickled = true;
    session = s;
  }
  call_live r args (n, some l) s =
      applied r.twin_id (lookup r.twin_id s.twins) (run_verb r.verb args l) s

  decoded : Request → Result (Option A) → Session (Twin J) → Called J
  unfolding call_live live_twin
  decoded r (raise e) s = record { answer = refused (status 400); unpickled = true; session = s }
  decoded r (ok none) s = record { answer = refused (status 400); unpickled = true; session = s }
  decoded r (ok (some args)) s = call_live r args (live_twin r.twin_id s.twins) s

  -- `_decode_call`: the versions first, and then the payload, if there is one.
  decode_call : Request → Result (Unit {0}) → Option Text → Session (Twin J) → Called J
  unfolding decoded
  decode_call r (raise e) p s = record {
    answer = refused (status 400);
    unpickled = false;
    session = s;
  }
  decode_call r (ok u) none s = record (call_live r host.no_args (live_twin r.twin_id s.twins) s) {
    unpickled = false;
  }
  decode_call r (ok u) (some []) s =
      record (call_live r host.no_args (live_twin r.twin_id s.twins) s) { unpickled = false }
  decode_call r (ok u) (some (c ∷ blob)) s = decoded r (host.decode (c ∷ blob)) s

  -- `DTSession.twin_call`
  unfoldable pub session_call : Request → Session (Twin J) → Called J
  unfolding decode_call
  session_call r s =
      if not s.is_active
      then record { answer = refused (status 410); unpickled = false; session = s }
      else decode_call r (check_versions host.ours r.stamp) r.payload s

  module _ (find_session : Text → Sessions (Twin J) → Option (Session (Twin J))) where
    call_in :
        Text
        → Request
        → Option (Session (Twin J))
        → Sessions (Twin J)
        → Answer × Bool × Sessions (Twin J)
    unfolding session_call
    call_in sid r none ss = (refused unknown_session, false, ss)
    call_in sid r (some s) ss =
        let c = session_call r s in (c.answer, c.unpickled, insert sid c.session ss)

    -- `PluginDT.twin_call`: the answer, whether a payload was unpickled, and the sessions.
    unfoldable pub twin_call :
        Text → Request → Sessions (Twin J) → Answer × Bool × Sessions (Twin J)
    unfolding call_in
    twin_call sid r ss =
        if contains verbs r.verb
        then call_in sid r (find_session sid ss) ss
        else (refused bad_value, false, ss)
