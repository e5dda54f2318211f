-- ===== src/Service/Requests/Handled.antt =====
-- A client's verb reaches its handler. src/digitaltwin/service/client.py, session.py and plugin.py.
use digital_twin_framework.Prelude.{
  ℕ, Text, Bool, true, false, [], Option, some, lookup, Result, ok, nat_eq, list_eq, list_beq,
  contains, length, ltb, ◌≡◌, ◌≢◌, refl, ap, ◌∙◌, subst, sym,
}
use digital_twin_framework.Runtime.Lifecycle.{Life}
use digital_twin_framework.Runtime.Graph.{Job}
use digital_twin_framework.Service.Wire.{Versions, check_versions, encode_checked, max_payload}
use digital_twin_framework.Service.Wire.Compatible.{check_versions_exact, minor_iff}
use digital_twin_framework.Service.Twin.{Twin}
use digital_twin_framework.Service.Plugin.{Session, Sessions}
use digital_twin_framework.Service.Calls.{verbs, Answer, Host, run_verb}
use digital_twin_framework.Service.Calls.Answered.{IsOpen, after, twin_call-after}
use digital_twin_framework.Service.Verbs.{
  Args, Verb, verb_text, verb_add_task, verb_add_investigator, verb_add_agent, verb_start,
  verb_stop, verb_describe, verb_get_inference, call_of, call_misfit, Served, Done, Given, handle,
}
use digital_twin_framework.Service.Verbs.Refining.{ended_of, host_of, handle_refines}
use digital_twin_framework.Service.Requests.{
  version_stamp, Method, sent_by, Client, Sent, got, verb_request, client_verb, post_to, add_task,
  add_investigator, add_agent, start, stop, describe, get_inference,
}

-- No method of a client sends arguments that its handler does not take.
pub methods_fit :
    {V P : Type 0} (m : Method V P) → call_of (sent_by m).0 (sent_by m).1 ≢ call_misfit
unfolding sent_by call_of
methods_fit (add_task p i o persistent) = λ h. cc
methods_fit (add_investigator p i o) = λ h. cc
methods_fit (add_agent p i o) = λ h. cc
methods_fit start = λ h. cc
methods_fit stop = λ h. cc
methods_fit describe = λ h. cc
methods_fit (get_inference d o timeout) = λ h. cc

-- A stamp is accepted by a service with the very same versions.
same_versions : (v : Versions) → check_versions v (version_stamp v) ≡ ok tt
unfolding lookup list_beq
same_versions v = (check_versions_exact v (version_stamp v)).1 (record {
  python = (v.python, refl, (minor_iff v.python v.python).0 refl);
  cloudpickle = (v.cloudpickle, refl, (minor_iff v.cloudpickle v.cloudpickle).0 refl);
  digitaltwin = refl;
})

known_verb : (v : Verb) → contains verbs (verb_text v) ≡ true
unfolding list_beq
known_verb verb_add_task = refl
known_verb verb_add_investigator = refl
known_verb verb_add_agent = refl
known_verb verb_start = refl
known_verb verb_stop = refl
known_verb verb_describe = refl
known_verb verb_get_inference = refl

module _ {A J : Type 0} (client : Client A) (host : Host A J) where
  -- A payload that is sent, and unpickled to what was sent.
  pub record IsCarried (args : A) : Type 0 where
    pub fits : ltb (max_payload client.frame_cap) (length (client.encode args)) ≡ false
    pub inverse : host.decode (client.encode args) ≡ ok (some args)
    pub not_empty : client.encode args ≢ []

  request_made :
      (i verb : Text) (args : A)
      → IsCarried args
      → verb_request client i verb args
        ≡ ok (record {
          twin_id = i;
          verb = verb;
          payload = some (client.encode args);
          stamp = version_stamp client.versions;
        })
  unfolding verb_request encode_checked
  request_made i verb args h = rw h.fits refl

  -- A call of a client that gets through.
  abbrev pub through : Answer × Bool × Sessions (Twin J) → Sent × Sessions (Twin J)
  through (a, u, ss) = (got a, ss)

  verb_through :
      (find_session : Text → Sessions (Twin J) → Option (Session (Twin J))) (sid i : Text)
      (v : Verb) (args : A) (ss : Sessions (Twin J)) (s : Session (Twin J)) (t : Twin J)
      (l : Life J)
      → host.ours ≡ client.versions
      → client.require_session ≡ ok sid
      → IsCarried args
      → IsOpen host find_session sid i ss s t l
      → client_verb client host find_session i (verb_text v) args ss
        ≡ through (after host find_session sid i ss s t (run_verb host (verb_text v) args l))
  unfolding client_verb post_to
  verb_through find_session sid i v args ss s t l same opened carried usable =
      let accepted =
        subst (λ o. check_versions o (version_stamp client.versions) ≡ ok tt) (sym same)
          (same_versions client.versions) in
      let answered =
        twin_call-after host find_session sid i (verb_text v) (client.encode args)
          (version_stamp client.versions) args ss s t l (known_verb v) accepted carried.not_empty
          carried.inverse usable in
      rw (request_made i (verb_text v) args carried, opened, answered) refl

module _ {V P : Type 0} (client : Client (Args V P)) (given : Given V P)
    (decode : Text → Result (Option (Args V P))) (served : Served V) where
  -- The service of a client's own versions, in front of a twin.
  abbrev pub service : Host (Args V P) Job
  service = host_of given client.versions decode served

  -- A method of a client is its handler, called from afar. In an open session of a service of the same
  -- versions, with a payload that fits the frame cap, is not empty, and is unpickled to what was
  -- encoded: the client gets the answer to how the handler ended, whatever the method and the ending,
  -- and the twin is left with the life cycle that the handler left. A handler that never ends is
  -- excluded.
  pub client_verb_handled :
      (find_session : Text → Sessions (Twin Job) → Option (Session (Twin Job))) (sid i : Text)
      (m : Method V P) (ss : Sessions (Twin Job)) (s : Session (Twin Job)) (t : Twin Job) (u : ℕ)
      (d : Done)
      → client.require_session ≡ ok sid
      → IsCarried client service (sent_by m).1
      → IsOpen service find_session sid i ss s t served.graph.life
      → (handle given (sent_by m).0 (sent_by m).1 served).0 ≡ some (u, d)
      → client_verb client service find_session i (verb_text (sent_by m).0) (sent_by m).1 ss
        ≡ through client service (
            after service find_session sid i ss s t
              (ended_of d, (handle given (sent_by m).0 (sent_by m).1 served).1.graph.life))
  client_verb_handled find_session sid i m ss s t u d opened carried usable h =
      let v = (sent_by m).0 in
      let args = (sent_by m).1 in
      let l = served.graph.life in
      verb_through client service find_session sid i v args ss s t l refl opened carried usable
      ∙ ap (λ r. through client service (after service find_session sid i ss s t r))
          (handle_refines given client.versions decode served v args u d h)
