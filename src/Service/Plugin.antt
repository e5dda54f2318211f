-- ===== src/Service/Plugin.antt =====
-- The sessions of a plugin and the twins that they hold: `PluginDT`, src/digitaltwin/service/plugin.py,
-- with the registration and the removal of twins in `DTSession`, src/digitaltwin/service/session.py.
-- The configuration of sessions and twins is left out. The host's `_forward`, which hands a call to the session that an id names, is a parameter.
pub mod Ownership
use digital_twin_framework.Prelude.{
  ℕ, Text, codes, Bool, true, false, ◌||◌, ◌&&◌, not, List, [], ◌∷◌, ◌++◌, Option, none, some, Eq,
  ◌==◌, nat_eq, list_eq, Dict, lookup, insert, erase, has, keys, find, length, ltb, contains,
  is_none, if◌then◌else◌,
}
use digital_twin_framework.Stream.Topic.{is_empty, topic_terminator}

-- Why a request is refused: an HTTP status of the program's own, or the host's answer to a
-- `ValueError`, or to an unknown session.
pub data Refusal : Type 0 where
  status : ℕ → Refusal
  bad_value unknown_session : Refusal

pub data Reply : Type 0 where
  twin_reply closed_reply : Reply
  refused : Refusal → Reply

-- A session, with its twins by id. `T` is the type of twins.
pub record Session (T : Type 0) : Type 0 where
  pub is_active : Bool
  pub twins : Dict Text T

abbrev pub Sessions : Type 0 → Type 0
Sessions T = Dict Text (Session T)

-- `_twin_id`: a text of 1 to 128 characters without '/', NUL and space.
unfoldable pub twin_id_ok : Text → Bool
twin_id_ok i =
    not (is_empty i || ltb 128 (length i))
    && not (contains i b'/' || contains i topic_terminator || contains i b' ')

module _ {T : Type 0} where
  unfoldable pub new_session : Session T
  new_session = record { is_active = true; twins = [] }

  -- `twin_id in session.twins`, for the session that an id names.
  unfoldable pub holds : Sessions T → Text → Text → Bool
  holds ss i sid = elim (lookup sid ss) [ none ↦ false | some s ↦ has i s.twins ]

  -- `_twin_owner`
  unfoldable pub twin_owner : Text → Sessions T → Option Text
  unfolding holds
  twin_owner i ss = find (holds ss i) (keys ss)

  -- `register_session`, for a session id that the host picked or the client gave: one that is there
  -- is reattached.
  unfoldable pub register_session : Text → Sessions T → Sessions T
  unfolding new_session
  register_session sid ss = if has sid ss then ss else insert sid new_session ss

  -- `DTSession.twin_create`: a twin that is there is left alone.
  unfoldable pub session_twin_create : Text → T → Session T → Reply × Session T
  session_twin_create i fresh s =
      if not s.is_active
      then (refused (status 410), s)
      else if has i s.twins
      then (twin_reply, s)
      else (twin_reply, record s { twins = insert i fresh s.twins })

  -- `DTSession.twin_close`: an unknown twin is closed already.
  unfoldable pub session_twin_close : Text → Session T → Reply × Session T
  session_twin_close i s =
      if not s.is_active
      then (refused (status 410), s)
      else (closed_reply, record s { twins = erase i s.twins })

  -- `DTSession.close`
  unfoldable pub session_close : Session T → Session T
  session_close s = record { is_active = false; twins = [] }

  -- `_forward` of a call: the session goes back under its id.
  unfoldable pub forward :
      Option (Session T) → Text → (Session T → Reply × Session T) → Sessions T → Reply × Sessions T
  forward none sid f ss = (refused unknown_session, ss)
  forward (some s) sid f ss = ((f s).0, insert sid (f s).1 ss)

  -- The routes, over the host's look-up of a session.
  module _ (find_session : Text → Sessions T → Option (Session T)) where
    twin_create_as : Option Text → Text → Text → T → Sessions T → Reply × Sessions T
    unfolding forward session_twin_create
    twin_create_as none sid i fresh ss =
        forward (find_session sid ss) sid (session_twin_create i fresh) ss
    twin_create_as (some owner) sid i fresh ss =
        if owner == sid
        then forward (find_session sid ss) sid (session_twin_create i fresh) ss
        else (refused bad_value, ss)

    -- The route for a configuration that is missing or an object.
    unfoldable pub twin_create : Text → Text → T → Sessions T → Reply × Sessions T
    unfolding twin_create_as twin_id_ok twin_owner
    twin_create sid i fresh ss =
        if twin_id_ok i
        then twin_create_as (twin_owner i ss) sid i fresh ss
        else (refused bad_value, ss)

    -- The route on whether the configuration is one of these. The check comes after those of the id and of
    -- the owner, whose refusals are alike and change nothing.
    unfoldable pub twin_create_with : Bool → Text → Text → T → Sessions T → Reply × Sessions T
    unfolding twin_create
    twin_create_with config_ok sid i fresh ss =
        if config_ok then twin_create sid i fresh ss else (refused bad_value, ss)

    unfoldable pub twin_close : Text → Text → Sessions T → Reply × Sessions T
    unfolding forward session_twin_close
    twin_close sid i ss = forward (find_session sid ss) sid (session_twin_close i) ss

  -- The end of a session: it is closed in its place, and then taken out.
  unfoldable pub close_session : Text → Sessions T → Sessions T
  unfolding session_close
  close_session sid ss = elim (lookup sid ss) [
    | none ↦ ss
    | some s ↦ insert sid (session_close s) ss
  ]

  abbrev pub unregister_session : Text → Sessions T → Sessions T
  unregister_session sid ss = erase sid ss
