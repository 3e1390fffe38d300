-- ===== src/Lib.antt =====
-- The core of pg-proto, a session-typed implementation of the PostgreSQL wire protocol: the packets
-- before a session, the codec, the runtime machine of the backend protocol, the ledger that keeps the
-- responses of pipelined operations in order, and the state that a proxy keeps around it: held
-- responses, cancellation keys, names of statements and portals.
--
-- How the parts interact: a transport feeds bytes to `PgCodec` (src/codec.rs), which cuts frames and
-- decodes each into a message of its direction. A proxy hands frontend messages to
-- `Pipeline::accept_frontend` (src/pipeline.rs), which appends an operation, and backend messages to
-- `Pipeline::accept_backend`, which lets through what belongs to the operation at the head. Both
-- consult the generated machine of src/grammar.rs for the phase that each response stands in.
-- Messages that belong to no operation are told by the classifier of src/demux.rs. The intermediary
-- (src/intermediary_component.rs) drives the ledger from the side of PostgreSQL: each response waits in
-- the hold of src/backend_hold.rs until the application's middleware decides on it, and a batch of held
-- responses is released against `Pipeline::prepare_backend_replacements`.
--
-- Files:
-- - Base and its children: lists, options, results of `std::io`, machine integers.
-- - Wire: the integer accessors of the `bytes` crate, an instance argument with the documented
--   big-endian behaviour, since the repository only calls them.
-- - Codec/Frame: `Frame`, `with_max_frame_len`, `encode`, `decode_frame`, `decode_item` (the
--   `Decoder` of `PgCodec`). A buffer is a list of bytes; decoding returns what is left of it.
-- - Codec/Primitives, Codec/Simple: `take_*`, `put_*`, `require*` and the counted vectors.
-- - Codec/Frontend, Codec/Backend: the messages, `to_frame`, `decode`. A buffer that the source
--   mutates is passed through a chain of results.
-- - Demux, Demux/Route: `is_asynchronous`, and the state and `route` of `Demux`; a `BTreeMap` is an
--   OrderedMap. Demux/Events holds the proofs.
-- - OrderedMap, HashMap: `BTreeMap` and `HashMap` as lists of entries, with the laws of their lookups.
-- - Startup: `StartupMessage` of src/startup.rs. PreStartup: the untagged packets of src/pre_startup.rs;
--   PreStartup/Policy: `EncryptionReply`, `SslMode` and the transitions of the negotiation, where the
--   type that indexes `Conn` is a phase.
-- - Replication: the payloads of src/replication.rs; Replication/Accessors: the 64-bit accessors of
--   `bytes`, an instance argument as Wire is.
-- - CancelKeys: `CancelKeyMap` of src/cancel.rs. Resources: `ResourceScope` of src/resources.rs.
-- - BackendHold: `BackendHold` of src/backend_hold.rs. Intermediary: `forward_backend`,
--   `flush_backend_hold` and `prepare_backend_teardown` of src/intermediary_component.rs, as functions on
--   the connection that end with a value, an error or a panic. The middleware and the cores of the two
--   roles, with their transports, are an argument, `Environment`: any functions on any state.
-- - Grammar: `RuntimeState`, `Event`, `project_internal`, `project_external`, `transition` of the
--   `backend` protocol in src/grammar.rs, row by row. Grammar/Laws, Grammar/Errors and Grammar/Paths
--   hold the proofs.
-- - Pipeline/Types, Classify, Frontend, Prepare, Backend, Attribute, Replacements: the ledger and its
--   operations under the source's names; a method that takes `&mut self` returns the new ledger. The `expect`
--   and `unreachable!` of the source are the outcome `panicked`.
-- - Pipeline/Invariant, Rows, Order, Emission, Sequences, Attribution, Capacity, Phases, Runs,
--   Deviations, and the children of Replacements: proofs. So are Invariant, Steps, Answers, Safety,
--   Flush, Room, Forward and Runs of Intermediary, and the files Inverse, Loops, Named,
--   OnWire, Rounds and RoundTrip.
-- - Tests: concrete accessors, messages and ledgers.
--
-- Bounds: `usize` has 64 bits. Ids of operations saturate at 2^64 - 1, so runs are of at most that
-- many calls. The loops of `decode_authentication`, of `decode_diagnostic` and of
-- `StartupMessage::decode` run on fuel, one more than the bytes that are left: each round takes at
-- least one byte. Every other loop runs along a list or for the count that the body declares.
--
-- Not modelled: the wake-up of waiting tasks, the typed middleware of the ledger, authentication,
-- TLS, transports, the frontend direction of the intermediary and the other asynchronous components;
-- the procedural macro of pg-proto-fsm, whose expansion is modelled in its place. A connection of the
-- intermediary is modelled between its calls and inside them, not where a call is dropped half-way.
mod Base
mod Wire
mod OrderedMap
mod Tests
pub mod Codec
pub mod Demux
pub mod HashMap
pub mod CancelKeys
pub mod Resources
pub mod BackendHold
pub mod Intermediary
pub mod Replication
pub mod Startup
pub mod PreStartup
pub mod Grammar
pub mod Pipeline
