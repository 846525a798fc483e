-- ===== src/Lib.antt =====
-- PrimaDB: a replicated graph database. Replicas write to a versioned graph, send one another
-- operations, and converge; local transactions are undone when they fail; records are scanned
-- page by page; envelopes travel over a mesh of routers and relays, and large messages as
-- streams of frames.
--
-- The parts and the files that model them:
-- - Clock, with Clock/Version and Clock/OpIdText: src/clock.rs. `HybridClock` issues revisions and
--   ids and observes revisions of others. The wall clock is an argument. Integers of 64 and 32 bits
--   saturate as in the code. A `String` is the list of its bytes in UTF-8 (Text); where the code
--   replaces a character outside ASCII by `-`, the model does so at its first byte and drops the
--   others.
-- - Graph, with Graph/Apply: src/value.rs, src/operation.rs and the payloads of src/binary.rs and
--   src/blob.rs; Graph/Apply is the match in `Inner::apply_operation_internal` of src/db.rs, one
--   function for each kind of operation. `serde_json::Value` is the type parameter `J`.
-- - Queue: `CompactedOperations` of src/db.rs. Its `HashMap` is a function from slots.
-- - Scope: the policies of src/consistency.rs, and `policy_for_path`, `node_matches_root` and
--   `scope_policy_matches_authority_actor` of src/db.rs.
-- - Replica: `Inner` of src/db.rs with the operations on it (`apply_operation_internal`,
--   `apply_operations`, the four local writes, the pending queue). Replica/Journal is
--   `TransactionJournal` and `OperationQueueUndo`; Replica/Transaction is
--   `run_local_transaction_in_scope`, whose closure is any sequence of writes, new ids and new
--   nodes.
-- - Router, with Router/Envelopes and Router/Accept: src/router.rs. The messages in envelopes are
--   type parameters (`Contents`), and `stable_content_hash` is a function parameter.
-- - Merge: `merge_node_state` and what it calls, and `observe_node_state`, of src/db.rs. A
--   `BTreeSet` is a map to the unit type.
-- - Storage, with Storage/Components, Storage/Sortable and Storage/Keys: the key codec of
--   src/engine.rs (`encode_component`, `decode_component`, `sortable_scalar_key`,
--   `direct_index_key`, `direct_index_key_parts`). A number is given by the bits of its `f64`.
-- - Records, with Records/Prefix, Records/Collect, Records/Pages, Records/Store and Records/Scans:
--   src/record.rs, `record_scan_key_prefix` of src/engine.rs, and the scan of src/db.rs:
--   `collect_record_entries_for_scan_page`, the loop of `collect_record_entries_for_scan`,
--   `record_scan_result` and `scan_records`, with a store or without one. The store's answers
--   (`IncrementalStore::scan_record_entries`) are a function parameter, since a store may also be a
--   file or a database; `Reads` in Records/Answers says what a property asks of them.
-- - Streams, with Streams/Chunks, Streams/Frames and Streams/Assemble: the streams of
--   src/overlay.rs: `chunk_string`, the frames that `send_application_stream` makes, and
--   `ApplicationStreamAssembler`. JSON text is made and parsed by function parameters.
-- - Underlays: `ordered_underlays` and `send_route` of src/overlay.rs. What an underlay answers to
--   `send_route` is a function parameter, and the routes are an argument.
-- - Application: src/app_route.rs, with `ApplicationRouteBus::publish`. The channel of a subscriber
--   is the list of the events in it, and takes one while it has fewer than the capacity.
-- - Relay, with Relay/Forward and Relay/CommaList: `RouteRelayCore` of src/transport.rs, with the
--   recommendations and the bootstrap route; it shares the envelopes and caches of Router.
-- - Security, with Security/Roots, Security/Frames, Security/Policies and Security/Certificates: the
--   users, grants, signed values and certificates of src/auth.rs, the signing, encryption and
--   decoding of synchronisation frames there, and what they call of src/crypto.rs. Ed25519,
--   XChaCha20-Poly1305, Base64 and serde_json are the fields of `Primitives` and `Json`; `IsSound`
--   in Security/Exchange states what a property asks of them. The texts of errors are left out.
-- - Prelude, Ord, Map, Text: helpers; lawful orders; `BTreeMap` as sorted entries; texts and their
--   characters. Graph/Cells and the other files prove, Tests run.
--
-- Loops are recursion on the list they walk. The loop of `trim_seen_cache` has fuel, as much as
-- the cache has entries: each turn removes one. The loop over the pages of a store has fuel,
-- which is enough above the number of the store's keys: each page but the last has a key that
-- none had before. From a store that lists all that a scan matches, up to the limit, the first
-- page is enough where the overlay deletes nothing. Where the code would panic on an index out of
-- range, the model changes nothing in the queue, whose invariant excludes the case, and
-- `decode_component` has a result for it.
--
-- Not modelled: of `Inner`, the record overlay's refresh, the relationship index, the missing
-- nodes and the watchers, which follow from the graph or only notify; batches of records with
-- preconditions; the segment files and the recovery of src/engine.rs; queries; the exchange of
-- messages in src/sync.rs; the transports that need a network; the making of certificates,
-- and password keys; text and vector search; scripting and bindings. The lock around the state makes
-- each modelled operation one step.
pub mod Prelude
pub mod Ord
pub mod Text
pub mod Map
pub mod Clock
pub mod Graph
pub mod Queue
pub mod Scope
pub mod Replica
pub mod Router
pub mod Merge
pub mod Storage
pub mod Records
pub mod Application
pub mod Relay
pub mod Streams
pub mod Underlays
pub mod Security
mod Tests
