-- ===== src/Service/Registering.antt =====
-- How a client opens a session or comes back to it: `DTClient.register_session`,
-- src/digitaltwin/service/client.py, and `PluginDT.register_session` with `_body` and
-- `_normalize_session_policy`, src/digitaltwin/service/plugin.py; and `admin_sessions`. What the host's
-- base class makes of a policy, its records of sessions, and the ids that it picks are parameters. The
-- times of a session and its engines are left out.
pub mod Reattaching
use digital_twin_framework.Prelude.{
  ℕ, Text, codes, Bool, true, false, ◌&&◌, not, List, [], ◌∷◌, Option, none, some, Dict, lookup,
  insert, erase, has, nat_eq, list_eq, ◌==◌, Result, ok, raise, Error, value_error, is_some,
  if◌then◌else◌,
}
use digital_twin_framework.Service.Twin.{Twin}
use digital_twin_framework.Service.Client
use digital_twin_framework.Service.Client.{session_twin_list}
use digital_twin_framework.Service.Plugin
use digital_twin_framework.Service.Plugin.{Session, Sessions}

-- A value of a JSON object, of which the code only tells apart these. `C` is the type of objects.
pub data Value (C : Type 0) : Type 0 where
  null other : Value C
  text : Text → Value C
  object : C → Value C

-- What `request.json()` gives.
pub data Body (C : Type 0) : Type 0 where
  undecodable no_object : Body C
  decoded : Dict Text (Value C) → Body C

module _ {C : Type 0} where
  -- `_body`
  abbrev pub body_of : Body C → Dict Text (Value C)
  body_of undecodable = []
  body_of no_object = []
  body_of (decoded d) = d

  -- `_normalize_session_policy`, up to the call of the base class.
  unfoldable pub forced_policy : Dict Text (Value C) → Dict Text (Value C)
  forced_policy d = erase (codes "ttl") (insert (codes "lifetime") (text (codes "persistent")) d)

  -- The configuration that a body brings.
  config_of : Option (Value C) → Result (Option C)
  config_of none = ok none
  config_of (some null) = ok none
  config_of (some (object c)) = ok (some c)
  config_of (some (text s)) = raise value_error
  config_of (some other) = raise value_error

  -- `DTClient.register_session`: an empty id counts as none.
  config_part : Option C → Dict Text (Value C) → Dict Text (Value C)
  config_part none d = d
  config_part (some c) d = insert (codes "config") (object c) d

  unfoldable pub client_payload : Option Text → Option C → Dict Text (Value C)
  unfolding config_part
  client_payload none config = config_part config []
  client_payload (some []) config = config_part config []
  client_payload (some (c ∷ cs)) config = config_part config ((codes "sid", text (c ∷ cs)) ∷ [])

-- What the host gives: the id that a policy asks for, whether a reattachment conflicts with the
-- policy of the session, and the id under which `_open_session` files a session that asks for an id or
-- for none.
pub record Policies (C : Type 0) : Type 0 where
  pub policy : Dict Text (Value C) → Result (Option Text)
  pub conflict : Text → Result (Unit {0})
  pub opens : Option Text → Text

-- The sessions of a plugin, and the configuration of each.
pub record Registry (C T : Type 0) : Type 0 where
  pub sessions : Sessions T
  pub configs : Dict Text C

-- The answer: the id and whether it was reattached, or the exception.
abbrev pub Registered : Type 0 → Type 0 → Type 0
Registered C T = Result (Text × Bool) × Registry C T

abbrev config_or_empty : {C : Type 0} → Option C → C → C
config_or_empty none e = e
config_or_empty (some c) e = c

module _ {C T : Type 0} (host : Policies C) (empty_config : C) where
  -- The session that `_open_session` filed under an id, and its configuration.
  open_session : Text → Option C → Registry C T → Registered C T
  unfolding Plugin.register_session
  open_session sid config r = (
    ok (sid, false),
    record {
      sessions = Plugin.register_session sid r.sessions;
      configs = insert sid (config_or_empty config empty_config) r.configs;
    },
  )

  reattached : Result (Unit {0}) → Text → Registry C T → Registered C T
  reattached (ok u) sid r = (ok (sid, true), r)
  reattached (raise e) sid r = (raise e, r)

  by_policy : Result (Option Text) → Option C → Registry C T → Registered C T
  unfolding open_session reattached
  by_policy (raise e) config r = (raise e, r)
  by_policy (ok none) config r = open_session (host.opens none) config r
  by_policy (ok (some sid)) config r =
      if has sid r.sessions
      then reattached (host.conflict sid) sid r
      else open_session (host.opens (some sid)) config r

  with_config : Dict Text (Value C) → Result (Option C) → Registry C T → Registered C T
  unfolding by_policy
  with_config d (raise e) r = (raise e, r)
  with_config d (ok config) r = by_policy (host.policy (forced_policy d)) config r

  -- `PluginDT.register_session`
  unfoldable pub register_session : Body C → Registry C T → Registered C T
  unfolding with_config config_of
  register_session b r =
      let d = body_of b in with_config d (config_of (lookup (codes "config") d)) r

-- The host's record of a session.
pub record Record : Type 0 where
  pub owner : Text
  pub lifetime : Text

pub record AdminEntry : Type 0 where
  pub sid : Text
  pub owner : Option Text
  pub lifetime : Option Text
  pub active : Bool
  pub twins : List Client.Entry

owner_of : Option Record → Option Text
owner_of none = none
owner_of (some r) = some r.owner

lifetime_of : Option Record → Option Text
lifetime_of none = none
lifetime_of (some r) = some r.lifetime

-- `admin_sessions`
unfoldable pub admin_sessions :
    {J : Type 0} → Dict Text Record → Sessions (Twin J) → List AdminEntry
unfolding owner_of lifetime_of session_twin_list
admin_sessions records [] = []
admin_sessions records ((i, s) ∷ ss) =
    record {
      sid = i;
      owner = owner_of (lookup i records);
      lifetime = lifetime_of (lookup i records);
      active = s.is_active;
      twins = session_twin_list s.twins;
    }
    ∷ admin_sessions records ss
