-- ===== src/Lib.antt =====
-- Verification of the digital twin framework, src/digitaltwin/ of the repository.
--
-- A twin is a graph of components (utility tasks, splitting tasks, investigators, agents, joins)
-- whose inputs and outputs have data types. A runtime runs the components on data that arrives in
-- one queue for each data type; barriers bring streams of several data types in step; twins talk
-- through a broker, with one namespaced client each; a service hosts twins for its clients, in
-- sessions.
--
-- The parts, and the files that model them:
--   Prelude          lists, dicts, texts and results that the parts share
--   Dtype            `DataType`, `JoinDataType`, `WindowDataType`, `TypedData` (components.py)
--   Barrier          `Barrier` (components.py): Invariant has the bookkeeping of its permits,
--                    Rounds what a round brings
--   Lru              `LRUCache` (lru.py), with a history of uses as its specification; Freeze is
--                    `freeze`, the keys of shared subtasks
--   Stream.Address   `stream_addresses`, `embedded_stream_addresses` (config.py)
--   Stream.Codec     `check_codec`, `encode_payload`, `decode_payload` (streaming.py)
--   Stream.Topic     `topic`, `check_channel` and the check of a namespace (streaming.py)
--   Stream.Backend   `ZMQ_PS_Client` (streaming.py)
--   Stream.Client    `PubSubClient` (streaming.py), over Stream.Backend; Consistent and Delivery
--                    say what its queues get, Configured what it reports of its endpoint
--   Stream.Broker    `ZMQ_BrokerProcess` (streaming.py)
--   Stream.Proxy     `ZMQ_Broker` and `_broker_main`, which run in that process (streaming.py)
--   Stream.Endpoint  `PubSubConfig`, `ChannelPublisher`, `connect_stream_client` (streaming.py), over
--                    Stream.Backend and Stream.Client; Reopening opens a client from what another
--                    one reports
--   Runtime.Lifecycle  `start`, `stop`, `_teardown`, `_to_asyncio_task`, `_task_done`,
--                    `_record_error` (runtime.py)
--   Runtime.Watching a runtime with its stream client, `on_error` and `_report_error` (runtime.py,
--                    streaming.py), over Runtime.Lifecycle and Stream.Backend
--   Runtime.Graph    the `add_` methods and `_put_to_dtype_queue` (runtime.py), over the life cycle
--   Runtime.Act      coroutines as effects in order and an ending
--   Runtime.Run      `_run_component`, `get_inference` (runtime.py), as such coroutines; Queueing
--                    compares a run that a queue feeds with an inference
--   Runtime.Api      `RuntimeAPI` (runtime.py): what a component may call, on its entry of Runtime.Run
--   Runtime.Shared   `register_shared_subtask` and its wrapper (runtime.py), over Lru; Endings has the
--                    ends of the futures and the callers that await them
--   Runtime.Flow     `_launch_consumer`, `_barrier_consumer`, `_launch_b_consumer` (runtime.py), over
--                    Barrier, of which Barrier.Carrying says what a hard stream does; Growing adds a
--                    barrier to a chain in use
--   Runtime.Joining  `_JoinComponent` (runtime.py)
--   Runtime.Describe `describe` (runtime.py), over Runtime.Graph; Printing is `print_graph`
--   Service.Wire     `check_versions`, `encode_checked` (service/wire.py)
--   Service.Twin     `TwinInstance`, `_init_twin`, `_live_twin` (service/session.py)
--   Service.Plugin   sessions and the twins that they hold (service/plugin.py, service/session.py)
--   Service.Engines  `engine`, `_build_engine`, `close` of a session (service/session.py)
--   Service.Calls    `twin_call` (service/plugin.py, service/session.py), over Service.Wire,
--                    Service.Twin and Runtime.Lifecycle
--   Service.Verbs    the handlers of the verbs and `_instantiate` (service/session.py), over
--                    Runtime.Graph; Refining makes them the host that Service.Calls takes
--   Service.Requests the graph verbs of `DTClient` (service/client.py), from the client through
--                    Service.Calls to Service.Verbs
--   Service.Registering  `register_session` of the client and of the plugin, and `admin_sessions`
--                    (service/client.py, service/plugin.py)
--   Service.Embedded the plugin's own broker (service/plugin.py), over Stream.Broker
--   Service.Streams  the stream client of a twin that the plugin accepted
--   Service.Client   `DTClient` (service/client.py), as far as it waits for twins
--   Tests            concrete runs
--
-- How code becomes definitions. State is a record that an operation takes and returns. Everything
-- runs on one event loop, so what a coroutine does between two waits is one step: an operation that
-- would wait returns `waiting` and the state that it leaves, and goes on in a later step. Steps of a
-- barrier and of a twin's life are data types, and what holds of every interleaving is proved by
-- induction on the steps. An exception is a value, with the state that it leaves behind. Dicts are
-- association lists in insertion order. Numbers that the program counts have no bound there and have
-- none here; a barrier's version starts at -1 in the program and is kept plus one. Loops are recursion
-- on lists, or cut at their waits. Only the polling loop of `wait_ready` runs on fuel: two rounds more
-- than there are poll intervals in its time limit, which is enough, since each round takes a poll
-- interval at least and the loop ends in the first round after the limit.
--
-- Parameters: user code (Runtime.Run), json, cloudpickle and bytes (Stream.Codec), cloudpickle with
-- base64 (Service.Wire), how a connection ends (Stream.Backend), the host's look-up of a session
-- (Service.Plugin), the environment (Stream.Address), what becomes of a spawned process
-- (Stream.Broker), what zmq binds and how its proxy ends (Stream.Proxy), how `_create_engine` comes
-- back (Service.Engines), unpickling (Service.Calls), the constructors of shipped classes and the runs
-- of an inference (Service.Verbs), what the host makes of a session's policy (Service.Registering), what
-- the service answers and how long that takes (Service.Client). Service.Calls takes the verbs on the
-- graph as a parameter too, which Service.Verbs fills.
--
-- Not modelled: the abstract base classes of components, which user code extends; the ages of sessions
-- and twins; the attributes that only hand on another object (`stream_config`, `broker_url`); logging;
-- the demonstration at the end of components.py; and times, but for a client's wait and the timeout of
-- an inference.

pub mod Prelude
pub mod Dtype
pub mod Stream
pub mod Lru
pub mod Barrier
pub mod Runtime
pub mod Service
pub mod Tests
