-- ===== src/Lib.antt =====
-- BitcoinWolfe: the header store, the synchronisation engine, the mempool, the peers and the gates of
-- the HTTP interface.
--
-- The node keeps block headers, peers and settings in a redb database (crates/wolfe-store), downloads
-- headers and blocks from its peers (crates/wolfe-node/src/sync.rs), and holds unconfirmed
-- transactions (crates/wolfe-mempool). The engine drives the store: `handle_headers` stores batches
-- of headers with `insert_headers_batch` and rewinds them with `reorganize`; every search and every
-- block request reads the store by height. The mempool stands apart. The peer-to-peer layer
-- (crates/wolfe-p2p) brings messages to the engine: a codec on the byte stream, the handshake, a loop
-- for each peer, and the tables that the tasks of the peers share. The RPC server (crates/wolfe-rpc)
-- lets requests in by a password, by a signed Nostr event (crates/wolfe-nostr), or by a token that
-- is bought with a Lightning payment.
--
-- Prelude, Bytes, Sort and Map are shared. Numbers are the native naturals; where the source computes
-- in machine integers the wrap-around is written out, `% 2 ^ w`. Bytes holds `to_be_bytes` and
-- `from_be_bytes`. Sort is the stable `sort_by` of the standard library, as an insertion sort. Map
-- states what is relied on of a redb table and of a DashMap; Map/Entries is a container that meets
-- these laws.
--
-- Store models crates/wolfe-store. Its state is the record `Tables`, one container for each table
-- definition. A write transaction is a function from tables to a result with new tables; a panic of
-- `copy_from_slice` is a result of its own, and the errors of redb itself are left out.
--   Store/Error, Store/Tables: crates/wolfe-store/src/error.rs, and the table definitions.
--   Store/Headers: crates/wolfe-store/src/headers.rs. `insert`, `remove`, `disconnect_range`, `get_by_hash`,
--     `get_by_height`, `get_by_height_write`, `tip` and `count` keep their names.
--   Store/Meta, Store/Peers: crates/wolfe-store/src/meta.rs and peers.rs. Strings are their bytes.
--   Store/Node: crates/wolfe-store/src/lib.rs, `insert_headers_batch` and `reorganize` among others.
--
-- Sync models crates/wolfe-node/src/sync.rs. The record `SyncEngine` has the fields of the struct of
-- this name and of its `SyncProgress`. A handler takes the engine, the time in seconds where it reads
-- the clock, and the message, and returns the engine and the response. A HashMap is the list of its
-- entries; a HashSet is a list of which only membership matters.
--   Sync/Engine: `new`, `set_consensus` and the `take_` functions.
--   Sync/Headers: `handle_headers`. The loop is `scan`, with `check_link` and `check_pow` for its two
--     checks; `store_headers` is what follows the loop.
--   Sync/Search: `find_fork_point`, `find_kernel_store_common_ancestor`, `build_locator`.
--   Sync/Request: `request_next_blocks`, `check_stall`. Sync/Inv: `handle_inv`.
--   Sync/Blocks: `handle_block`, `handle_message`.
--   Sync/Peers: `on_peer_connected`, `on_peer_disconnected`, `try_select_sync_peer`.
-- The loop of `build_locator` runs on the fuel `tip + 1`: each round but the last lowers the height.
-- The other loops are structural, on the height or on a list.
--
-- Mempool models crates/wolfe-mempool: Types and errors, Policy (policy.rs in its src) and Pool (pool.rs).
-- The maps and counters are read and written as in a single thread.
--
-- P2p models crates/wolfe-p2p. A stream is its bytes, with the sizes of the pieces in which they
-- arrive. It always ends, so a peer that stalls without closing the connection is not expressed.
--   P2p/Stream: the errors, and the reads of a socket, `read_exact` and `read`.
--   P2p/Codec: message.rs in its src. `read_message`, `write_message`, and the search for the magic,
--     `resync`, which runs on fuel: the length of the remaining stream and one are enough.
--   P2p/Peer, P2p/Connection: peer.rs and connection.rs. `connect` and `accept` take what the TCP connect
--     and the socket give, and return the connection or the error with what has been written.
--   P2p/Loop: `run_peer_loop` of manager.rs, as a fold over the branches that `select!` takes. In
--     P2p/Loop/Reads the rounds read from the stream, and a round in which another branch wins drops the
--     `recv` with the bytes that it has taken.
--   P2p/Manager: `PeerManager` of manager.rs, as a step relation on its tables. Each task is at a stage,
--     and each of its operations on the tables is a step, so tasks interleave in every order.
--
-- Nostr models crates/wolfe-nostr/src/nip98.rs. Rpc/L402 models crates/wolfe-rpc/src/l402.rs, with
-- the claimed payments of crates/wolfe-lightning/src/event_handler.rs in Rpc/L402/Gate, and Rpc/Auth models
-- `auth_middleware` of crates/wolfe-rpc/src/server.rs. A middleware returns `passed` where the source
-- runs the route behind it. Lightning models crates/wolfe-lightning/src/persister.rs: Lightning/Persister
-- is the store on its table, and Lightning/Persister/Spec the map that it promises. Prune models
-- `prune_block_files` of crates/wolfe-node/src/main.rs on a list of files with their sizes, with the
-- file names as their bytes.
--
-- Parameters stand for what is not of this repository: block headers, transactions and the consensus
-- encoding of messages of the `bitcoin` crate, HMAC and base64, BOLT11 invoices, events of the `nostr`
-- crate, serde_json, f64, libbitcoinkernel. Tests has concrete ones, in Sample, Wire and Nostr.
--
-- Not modelled: the wallet, the Lightning node and the main loop, which drive libraries that are not
-- of this repository; the handlers of the RPC server, which turn the state of the other parts into JSON;
-- DNS discovery, listening and timers; the bindings to libbitcoinkernel; logging and metrics.
pub mod Prelude
pub mod Map
pub mod Bytes
pub mod Sort
pub mod Store
pub mod Sync
pub mod Mempool
pub mod P2p
pub mod Prune
pub mod Lightning
pub mod Nostr
pub mod Rpc
pub mod Tests
