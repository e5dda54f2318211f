-- ===== src/Service/Requests.antt =====
-- The verbs of a client, from the call of a method of `DTClient`, src/digitaltwin/service/client.py, to
-- the service. The transport and the base class of the client are not part of the repository: what
-- `_require_session` does is a parameter, and so is the encoder.
pub mod Handled
use digital_twin_framework.Prelude.{
  ℕ, Text, codes, Bool, true, false, List, [], ◌∷◌, Option, none, some, Dict, Result, ok, raise,
  Error, ◌>>=◌,
}
use digital_twin_framework.Dtype.{Dtype, TypedData}
use digital_twin_framework.Service.Wire.{Versions, encode_checked}
use digital_twin_framework.Service.Twin.{Twin}
use digital_twin_framework.Service.Plugin.{Session, Sessions}
use digital_twin_framework.Service.Calls.{Answer, Request, Host, twin_call}
use digital_twin_framework.Service.Verbs.{
  Timeout, amount, Args, task_args, model_args, inference_args, no_args, Verb, verb_text,
  verb_add_task, verb_add_investigator, verb_add_agent, verb_start, verb_stop, verb_describe,
  verb_get_inference,
}

-- `version_stamp`
abbrev pub version_stamp : Versions → Dict Text Text
version_stamp v =
    (codes "python", v.python)
    ∷ (codes "cloudpickle", v.cloudpickle)
    ∷ (codes "digitaltwin", v.digitaltwin)
    ∷ []

-- The methods of a client that are graph verbs. A package is sent as it is.
pub data Method (V P : Type 0) : Type 0 where
  add_task : P → Dtype → Dtype → Bool → Method V P
  add_investigator add_agent : P → Dtype → Dtype → Method V P
  start stop describe : Method V P
  get_inference : TypedData V → Dtype → Timeout → Method V P

-- 600 s
abbrev pub inference_timeout : Timeout
inference_timeout = amount 600000

-- The verb and the arguments that a method sends.
unfoldable pub sent_by : {V P : Type 0} → Method V P → Verb × Args V P
sent_by (add_task p i o persistent) = (verb_add_task, task_args (some p) i o persistent)
sent_by (add_investigator p i o) = (verb_add_investigator, model_args (some p) i o)
sent_by (add_agent p i o) = (verb_add_agent, model_args (some p) i o)
sent_by start = (verb_start, no_args)
sent_by stop = (verb_stop, no_args)
sent_by describe = (verb_describe, no_args)
sent_by (get_inference d o timeout) = (verb_get_inference, inference_args d o timeout)

-- A client: its own versions, the frame cap, its encoder, and the id that `_require_session` lets it
-- use.
pub record Client (A : Type 0) : Type 0 where
  pub versions : Versions
  pub frame_cap : ℕ
  pub encode : A → Text
  pub require_session : Result Text

-- A call raised before a request was made, or was answered.
pub data Sent : Type 0 where
  not_sent : Error → Sent
  got : Answer → Sent

module _ {A : Type 0} (client : Client A) where
  -- The body of the request.
  unfoldable pub verb_request : Text → Text → A → Result Request
  verb_request i verb args = encode_checked client.frame_cap client.encode args >>= λ blob.
      ok (record {
        twin_id = i;
        verb = verb;
        payload = some blob;
        stamp = version_stamp client.versions;
      })

module _ {S : Type 0} where
  -- `_post` of a body that was made or not, to a service, in a session that is open or not.
  post_to : (Text → Request → S → Answer × Bool × S) → Result Request → Result Text → S → Sent × S
  post_to service (raise e) sid s = (not_sent e, s)
  post_to service (ok r) (raise e) s = (not_sent e, s)
  post_to service (ok r) (ok sid) s = let (a, u, s') = service sid r s in (got a, s')

-- `_verb`, over `_post`, which looks for the session once the payload is encoded.
unfoldable pub client_verb :
    {A J : Type 0}
    → Client A
    → Host A J
    → (Text → Sessions (Twin J) → Option (Session (Twin J)))
    → Text
    → Text
    → A
    → Sessions (Twin J)
    → Sent × Sessions (Twin J)
unfolding post_to verb_request
client_verb client host find_session i verb args ss =
    post_to (twin_call host find_session) (verb_request client i verb args) client.require_session
      ss
