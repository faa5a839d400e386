-- ===== src/Lib.antt =====
-- Verification of the core of Opake, the encrypted file cloud on AT Protocol: the crate
-- crates/opake-core, with the event handlers of crates/opake-wasm. What is modelled is the logic
-- that decides which records a client trusts, how it rewrites a directory path, and what its in-
-- memory tree and lists look like while events arrive.
--
-- The parts and the files that model them:
-- - Error (error.rs): the error values that the modelled code returns, and `Result`.
-- - Records (records/, crates/opake-crypto/src/wire.rs): directories, keyrings, listing entries,
--   roles, and references to unreadable records. Serialization is not modelled.
-- - Atproto (atproto.rs): `parse_at_uri` and `is_valid_did` over bytes.
-- - Events (indexer/types.rs, indexer/sse/events.rs): envelopes, the lenient classification of
--   records, and the events of the stream; Events/Decode, their decoding by name. JSON and serde are
--   parameters.
-- - Sse (indexer/sse/parser.rs): the line accumulator and the frame buffer of the event stream;
--   the decoder of a frame (serde) is a parameter. Sse/Consumer (indexer/sse/consumer.rs,
--   reconnect.rs): the loop that connects, delivers and reconnects, round by round against a
--   `World`.
-- - Retry (indexer/retry.rs): the bounded backoff, over an explicit clock.
-- - Tid (tid.rs): record keys from timestamps, with the 64-bit shift written out.
-- - Chain (directories/chain.rs): `fetch_with_cache`, `walk_back_to_genesis` and
--   `verify_and_walk_chain`. The network, DID resolution and JSON are the record `Network`.
-- - Authority and Additivity (directories/chain.rs): `verify_keyring_chain_authority` with
--   `pure_self_removal`, and `verify_directory_additivity`. Base64 decoding is a parameter.
-- - Cascade (directories/cascade.rs): `build_deep_cascade_levels` and `execute_cascade`; the state
--   is the log of the writes sent, and the server answers as a function of the log.
-- - Tree (directories/tree.rs, and `check_cycle` of directories/move_entry.rs): the
--   `DirectoryTree`, its construction and root (Tree/Roots), names (Tree/Names, with `GroupKeys`
--   of workspace.rs), changes from events (Tree/Apply), parents (Tree/Parents), walks down
--   (Tree/Descend; its Within has the paths through placeholders), cached records with their
--   deltas (Tree/Cached), and the resolution of
--   references (Tree/Resolve). The cryptography is the record `Crypto`.
-- - Workspace (workspace.rs): group keys by rotation and `verify_workspace_identity`.
-- - Keepers (indexer/inbox_keeper, indexer/workspace_keeper, indexer/chain_fork_keeper.rs): the
--   list keepers, one state machine with the interface `Listing`; Keepers/Inbox and
--   Keepers/Keyrings add the event handlers of crates/opake-wasm/src/sse_wasm.rs, Keepers/Gate its
--   bootstrap gate.
-- - TreeKeeper (indexer/tree_keeper/mod.rs): the live trees of all scopes, their watchers, the
--   events (TreeKeeper/Apply) and the adoption of a rotation (TreeKeeper/Adopt).
-- - Base: native numbers, texts as lists of bytes, lists, and maps as association lists. The order
--   of a `HashMap` is unspecified in the source; here it is the order of insertion.
--
-- How they interact: Records and Atproto are used by all; Cascade writes records that Chain later
-- walks; Authority and Additivity judge the chains that Chain returns; Tree applies records that
-- came through Retry and Sse; Sse reads what Events names, and Keepers and TreeKeeper apply those
-- events to the lists and trees that a client shows, with the keys that Workspace checks.
--
-- Fuel: the chain walk, the retries, the loop of the consumer and the walks down the tree take
-- fuel, and `none` says that it ran out. How much is enough is the subject of Chain/Fuel,
-- Retry/Window, Sse/Consumer/Rounds and Tree/Descend/Cycle; the walks down compute theirs from the
-- tree. A loop that the source bounds by a count has that count.
--
-- Not modelled: the rendering of the tree; the interleaving of a replay at the bootstrap gate with
-- live events; uploads, downloads, sharing, pairing and keyring rotation, which are calls of the
-- network and of cryptography; and the command line and web apps. Logging has no model.
pub mod Base
pub mod Error
pub mod Records
pub mod Atproto
pub mod Events
pub mod Sse
pub mod Retry
pub mod Tid
pub mod Chain
pub mod Authority
pub mod Additivity
pub mod Cascade
pub mod Tree
pub mod Workspace
pub mod Keepers
pub mod TreeKeeper
