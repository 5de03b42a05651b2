-- ===== src/Lib.antt =====
-- Cross Agent Chat: the parts that decide what is delivered and what is recorded of it.
--
-- The program lets coding sessions on one or more machines send each other messages. A state
-- root on each machine holds routes (one generation of one live provider process) and intents
-- (content-free delivery records). Processes of the machine work on these files under file
-- locks; a broker authorizes remote deliveries.
--
-- - Prelude, Text, Json: Boolean tests, comprehensions and quantifiers over lists; Python's str
--   as code points with the regular expressions of core.py; decoded JSON values. Text/Uuid is
--   str(UUID(value)).
-- - Core (src/cross_agent_chat/core.py): rejections as values, validators (Ids: valid_uuid,
--   valid_session_id, valid_device, valid_name, _parse_timestamp), state files (StateFile:
--   require_private_file and json.loads in read_rows, atomic_json), the intent row and its
--   object form (Intent, Intent/RoundTrip).
-- - IntentStore (core.py, class IntentStore): intents, intent_for_source, begin_identity,
--   claim_remote_authorization, mark, resolve_by_owner under their names. Reading is the file
--   against the rows, Rows the rows as a table, Steps what each success checked and wrote,
--   Ledger the abstract steps, Refinement the runs of calls, and Gate, History, Claim,
--   Youngest, Begin, Lookup and Resolve prove the behaviour.
-- - Core/Paths: stored_cwd with os.path.normpath. Route (core.py, class Route with session_key
--   and friendly_alias): check_route is __post_init__, Codec from_object and to_dict, Alias the
--   room of an alias.
-- - Registry (core.py, class Registry): routes, upsert, upsert_or_reuse_live_owner, remove,
--   compact_dead over the two route files and the owner anchors. Reading is the files against
--   the routes, Lookup the routes as a table, Updates, Reuse and History prove the operations
--   and their sequences.
-- - Sender (core.py, authenticate_sender): Exact is when it answers and with which route.
-- - Broker (src/cross_agent_chat/tailnet_broker.py, BrokerAdmission and
--   dispatch_broker_connection): acquire, release and the lane of a connection. Seats is the
--   admission against the connections held, Dispatch the lanes against the work under way,
--   States every state that dispatches and ends of work lead to. A worker, its socket and its
--   request are left out; a state is the seats they hold.
-- - Runtime (src/cross_agent_chat/runtime.py, _begin_delivery and authorize_remote): Authorize
--   and Retry are the theorems on them. A body is given as the text whose digest is recorded.
-- - Rpc, Mcp (src/cross_agent_chat/mcp_server.py, class _Session and serve): the JSON-RPC
--   messages and the session. Calls and Lifecycle are what is dispatched, Handshake what opens
--   a session, Replies the answers. What serve is given, initialize_result and dispatch, are
--   parameters; frames are given as they were read and decoded.
-- - Helper (src/cross_agent_chat/native_helper.py, class NativeHelperBinding): the binding of a
--   Codex task to its private helper; Codec is to_dict and from_dict. HelperStore (class
--   NativeHelperStore) has bindings, reserve, register and the lookups under their names; the
--   draws of uuid4 are a list, and reserve is none where it ran out. Reading is the file
--   against the bindings, Writing what reserve retires, Agreement and Steps the tests for
--   duplicates on what is written, Reserving and Registering what a success checked, Runs,
--   Used, Once and Draws the sequences of calls and the loop.
-- - NativeDispatch (native_helper.py, classes NativeDispatch and NativeDispatchStore): the
--   claims of nested sends, with Claims.
-- - Capability (src/cross_agent_chat/devin.py, classes DevinCapability and
--   DevinCapabilityStore): issue, consume with take_capability as its part under the lock,
--   revoke_session. Floats is a parameter: their JSON form, equality and the two tests of an
--   age. Reading, Gone and Once follow a token through the calls.
-- - Subagent (devin.py, class DevinSubagentStore): _update with the changes of launch, launched
--   and read, mark_uncertain, clear; Custody has custody and restriction. Text/Dict is a dict
--   as its items in order. The two regular expressions on an output are the parameter Patterns.
--   Codec, Writing, Held, Changes and Runs follow one subagent through any calls.
-- - Recipient (src/cross_agent_chat/recipient.py): local_token, remote_token and
--   parse_recipient_token under their names; BodyCodec is json and base64 on the body of a
--   token. Minting has the round trips.
-- - Endpoint (src/cross_agent_chat/external.py, class ExternalEndpoint) and EndpointStore
--   (class ExternalEndpointStore): enroll, authenticate, rotate and revoke under their names,
--   on the file of endpoints; configure_scope, configure_callback and the files of callbacks
--   are not modelled. Reading, Ended and Revoked follow a revoked id.
-- - Tests: a small world of standard-library tables, and every theorem at a concrete input.
--
-- An operation of the store holds the lock from its read to its write, so it is one step, and
-- an interleaving of processes is a sequence of calls. A time is a number of microseconds since
-- the year 1, as datetime keeps it; clocks may jump, since each call carries its own. The
-- Unicode categories, the ISO time format and SHA-256 are the fields of the record Env, with
-- the two facts that the code relies on: a formatted time parses to itself, and a digest is 64
-- hexadecimal digits. The file system is modelled as far as a reader sees it: whether the file
-- is there, private, and what JSON it holds. Failing writes (OSError) are not modelled, nor the
-- errors of a stored provider that cannot be hashed and of a helpers file that is not UTF-8:
-- these are the rejection of a bad file. A refusal reads the clock once.
pub mod Prelude
pub mod Text
pub mod Json
pub mod Core
pub mod IntentStore
pub mod Route
pub mod Registry
pub mod Sender
pub mod Recipient
pub mod Broker
pub mod Runtime
pub mod Helper
pub mod HelperStore
pub mod NativeDispatch
pub mod Capability
pub mod Subagent
pub mod Endpoint
pub mod EndpointStore
pub mod Rpc
pub mod Mcp
pub mod Tests
