-- ===== src/Stream/Backend.antt =====
-- The transport client `ZMQ_PS_Client` of src/digitaltwin/streaming.py. A coroutine that waits for
-- `is_running` has changed nothing in it yet, and does so from the start when the event is set.
use digital_twin_framework.Prelude.{
  Text, Bool, true, false, ◌||◌, not, nat_eq, list_eq, List, [], ◌∷◌, ◌++◌, contains, discard, Dict,
  lookup, insert, erase, has, Option, none, some, Result, ok, raise, Error, value_error,
  runtime_error, timeout_error, Status, done, raised, waiting, get_or_else, if◌then◌else◌,
}
use digital_twin_framework.Stream.Codec.{Coders}

pub data SocketOption : Type 0 where
  subscribe_option unsubscribe_option : Text → SocketOption

-- `C` is the type of callbacks, `P` that of payload bytes. The fields `has_pub` and `has_sub` say
-- which sockets are open, `options` what the SUB socket was told to filter for, `receiving` whether
-- the receive loop's task is there, and `sent` the frames that the PUB socket was handed.
pub record Backend (C P : Type 0) : Type 0 where
  pub pub_addr : Option Text
  pub sub_addr : Option Text
  pub has_pub : Bool
  pub has_sub : Bool
  pub options : List SocketOption
  pub topics : Dict Text (List C)
  pub raw_topics : List Text
  pub receiving : Bool
  pub closed : Bool
  pub running : Bool
  pub sent : List (Text × P)

-- How `_connect_socket` may end: the monitor reports the connection, the timeout passes, or it
-- raises.
pub data Attempt : Type 0 where
  connected timed_out : Attempt
  failed : Error → Attempt

-- What a caller hands to `publish`: bytes with `raw=True`, or an object.
pub data Outgoing (M P : Type 0) : Type 0 where
  raw : P → Outgoing M P
  object : M → Outgoing M P

-- What a callback is handed: the bytes of a raw topic, or the unpickled object.
pub data Incoming (M P : Type 0) : Type 0 where
  payload : P → Incoming M P
  message : M → Incoming M P

module _ {C P : Type 0} where
  unfoldable pub init : Option Text → Option Text → Backend C P
  init pub_addr sub_addr = record {
    pub_addr = pub_addr;
    sub_addr = sub_addr;
    has_pub = elim pub_addr [ none ↦ false | some _ ↦ true ];
    has_sub = elim sub_addr [ none ↦ false | some _ ↦ true ];
    options = [];
    topics = [];
    raw_topics = [];
    receiving = false;
    closed = false;
    running = false;
    sent = [];
  }

  -- The sockets and the context go, whatever the cancelled receive loop does.
  unfoldable pub shut : Backend C P → Backend C P
  shut b = record b {
    has_pub = false;
    has_sub = false;
    options = [];
    topics = [];
    raw_topics = [];
    receiving = false;
    closed = true;
    running = false;
  }

  unfoldable pub close : Backend C P → Backend C P
  unfolding shut
  close b = if b.closed then b else shut b

  -- The end of `connect`: the receive loop starts, and waiting callers go on.
  established : Backend C P → Status × Backend C P
  established b = (done, record b { receiving = b.has_sub; running = true })

  -- One socket, if it is there, and what follows; a failure closes the client first.
  connecting : Bool → Attempt → Backend C P → Status × Backend C P → Status × Backend C P
  connecting false a b next = next
  connecting true connected b next = next
  connecting true timed_out b next = (raised timeout_error, close b)
  connecting true (failed e) b next = (raised e, close b)

  unfoldable pub connect : Attempt → Attempt → Backend C P → Status × Backend C P
  unfolding connecting established
  connect sub_attempt pub_attempt b =
      if b.closed
      then (raised runtime_error, b)
      else connecting b.has_sub sub_attempt b (connecting b.has_pub pub_attempt b (established b))

  unfoldable pub subscribe : Text → C → Bool → Backend C P → Status × Backend C P
  subscribe topic callback as_raw b =
      if b.closed
      then (raised runtime_error, b)
      else if not b.has_sub
      then (raised value_error, b)
      else if not b.running
      then (waiting, b)
      else (
        done,
        record b {
          options = b.options ++ (subscribe_option topic ∷ []);
          topics =
              insert topic (get_or_else (lookup topic b.topics) [] ++ (callback ∷ [])) b.topics;
          raw_topics = if as_raw then topic ∷ discard b.raw_topics topic else b.raw_topics;
        },
      )

  unfoldable pub unsubscribe : Text → Backend C P → Backend C P
  unsubscribe topic b =
      if b.closed || not b.has_sub
      then b
      else if has topic b.topics
      then record b {
        options = b.options ++ (unsubscribe_option topic ∷ []);
        topics = erase topic b.topics;
        raw_topics = discard b.raw_topics topic;
      }
      else b

  -- `_run_done`: an exit of the receive loop that no `close` caused is reported, with its exception
  -- if it has one.
  unfoldable pub run_done : Bool → Option Error → Backend C P → Option Error
  run_done cancelled exc b =
      if b.closed || cancelled then none else some (get_or_else exc runtime_error)

wrap : {M P : Type 0} → Result M → Result (Incoming M P)
wrap (ok m) = ok (message m)
wrap (raise e) = raise e

module _ {M P : Type 0} (lib : Coders M P) where
  wire : Outgoing M P → Result P
  wire (raw p) = ok p
  wire (object m) = lib.pickle_dumps m

  -- The payload as the callbacks of its topic get it; `raise` is a malformed message.
  unfoldable pub unwire : Bool → P → Result (Incoming M P)
  unfolding wrap
  unwire true p = ok (payload p)
  unwire false p = wrap (lib.pickle_loads p)

module _ {C M P : Type 0} (lib : Coders M P) where
  hand_over : Text → Result P → Backend C P → Status × Backend C P
  hand_over topic (ok p) b = (done, record b { sent = b.sent ++ ((topic, p) ∷ []) })
  hand_over topic (raise e) b = (raised e, b)

  unfoldable pub publish : Text → Outgoing M P → Backend C P → Status × Backend C P
  unfolding hand_over wire
  publish topic out b =
      if b.closed
      then (raised runtime_error, b)
      else if not b.has_pub
      then (raised value_error, b)
      else if not b.running
      then (waiting, b)
      else hand_over topic (wire lib out) b

  -- The callbacks of a topic run in order over the state `S` that they share. What one raises is
  -- logged, and the next one runs.
  unfoldable pub run_callbacks :
      {S : Type 0} → (C → Incoming M P → S → Result (Unit {0}) × S) → List C → Incoming M P → S → S
  run_callbacks call [] inc s = s
  run_callbacks call (c ∷ cs) inc s = run_callbacks call cs inc (call c inc s).1

  on_frame :
      {S : Type 0}
      → (C → Incoming M P → S → Result (Unit {0}) × S)
      → List C
      → Result (Incoming M P)
      → S
      → S
  on_frame call cs (ok inc) s = run_callbacks call cs inc s
  on_frame call cs (raise e) s = s

  -- One round of the receive loop `_run`, for a frame of a topic and a payload.
  unfoldable pub receive :
      {S : Type 0} → (C → Incoming M P → S → Result (Unit {0}) × S) → Backend C P → Text → P → S → S
  unfolding on_frame unwire
  receive call b topic p s =
      on_frame call (get_or_else (lookup topic b.topics) [])
        (unwire lib (contains b.raw_topics topic) p) s
