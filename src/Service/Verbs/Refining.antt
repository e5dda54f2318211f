-- ===== src/Service/Verbs/Refining.antt =====
-- The handlers of the verbs as the host that a request meets, which `Service.Calls` takes as a
-- parameter. src/digitaltwin/service/session.py.
use digital_twin_framework.Prelude.{
  ℕ, Text, codes, Bool, true, false, Option, none, some, Result, ok, raise, ◌==◌, nat_eq, list_eq,
  list_beq, if◌then◌else◌, ◌≡◌,
}
use digital_twin_framework.Runtime.Lifecycle
use digital_twin_framework.Runtime.Lifecycle.{Life}
use digital_twin_framework.Runtime.Graph.{Job}
use digital_twin_framework.Service.Wire.{Versions}
use digital_twin_framework.Service.Calls
use digital_twin_framework.Service.Calls.{
  Host, Ended, finished, threw, unexpected, client_error, run_verb,
}
use digital_twin_framework.Service.Verbs.{
  Args, no_args, Verb, verb_text, verb_add_task, verb_add_investigator, verb_add_agent, verb_start,
  verb_stop, verb_describe, verb_get_inference, call_of, Served, Done, gave, failed, Given, perform,
  handle, at_once, started,
}

abbrev pub ended_of : Done → Ended
ended_of (gave r) = finished
ended_of (failed f) = threw f

-- The method that `getattr` finds.
abbrev pub verb_named : Text → Option Verb
verb_named t =
    if t == codes "add_task"
    then some verb_add_task
    else if t == codes "add_investigator"
    then some verb_add_investigator
    else if t == codes "add_agent"
    then some verb_add_agent
    else if t == codes "get_inference"
    then some verb_get_inference
    else none

same_end :
    {t u : ℕ} {d x : Done} {l : Life Job}
    → ◌≡◌ {A = Option (ℕ × Done)} (some (u, x)) (some (t, d))
    → ◌≡◌ {A = Ended × Life Job} (ended_of x, l) (ended_of d, l)
same_end {l = l} h = cc

abbrev pub is_empty : {V P : Type 0} → Args V P → Bool
is_empty no_args = true
is_empty _ = false

-- The call as it stands when the handler has ended. One that never ends gives no answer.
abbrev pub seen : {V : Type 0} → Option (ℕ × Done) × Served V → Option (Ended × Life Job)
seen (none, s) = none
seen (some (t, d), s) = some (ended_of d, s.graph.life)

abbrev pub or_hung : Option (Ended × Life Job) → Life Job → Ended × Life Job
or_hung none l = (threw unexpected, l)
or_hung (some r) l = r

module _ {V P : Type 0} (given : Given V P) where
  abbrev pub by_name : Option Verb → Args V P → Served V → Option (Ended × Life Job)
  by_name none args s = none
  by_name (some v) args s = seen (handle given v args s)

  -- The host of a twin whose runtime and engine are these.
  abbrev pub host_of :
      Versions → (Text → Result (Option (Args V P))) → Served V → Host (Args V P) Job
  host_of ours decode s = record {
    ours = ours;
    decode = decode;
    no_args = no_args;
    has_none = is_empty;
    closes = given.stops.1;
    graph_verb = λ t args l.
        or_hung (by_name (verb_named t) args (record s { graph = record s.graph { life = l } })) l;
  }

  module _ (ours : Versions) (decode : Text → Result (Option (Args V P))) (s : Served V) where
    start_refines :
        (r : Result (Unit {0}) × Life Job) (t : ℕ) (d : Done)
        → (started given r s).0 ≡ some (t, d)
        → Calls.started (host_of ours decode s) r ≡ (ended_of d, (started given r s).1.graph.life)
    unfolding Calls.started started at_once
    start_refines (ok u, l) t d h = same_end h
    start_refines (raise e, l) t d h = same_end h

    graph_verb_refines :
        (h : Option (ℕ × Done)) (s' : Served V) (t : ℕ) (d : Done)
        → h ≡ some (t, d)
        → or_hung (seen (h, s')) s.graph.life ≡ (ended_of d, s'.graph.life)
    graph_verb_refines none s' t d e = cc
    graph_verb_refines (some (u, x)) s' t d e = same_end e

    pub handle_refines :
        (v : Verb) (args : Args V P) (t : ℕ) (d : Done)
        → (handle given v args s).0 ≡ some (t, d)
        → run_verb (host_of ours decode s) (verb_text v) args s.graph.life
          ≡ (ended_of d, (handle given v args s).1.graph.life)
    unfolding run_verb handle perform call_of list_beq at_once
    handle_refines verb_start no_args t d h = start_refines (Lifecycle.start s.graph.life) t d h
    handle_refines verb_start args t d h = same_end h
    handle_refines verb_stop no_args t d h = same_end h
    handle_refines verb_stop args t d h = same_end h
    handle_refines verb_describe no_args t d h = same_end h
    handle_refines verb_describe args t d h = same_end h
    handle_refines v args t d h =
        graph_verb_refines (handle given v args s).0 (handle given v args s).1 t d h
