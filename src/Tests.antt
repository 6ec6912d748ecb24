-- ===== src/Tests.antt =====
-- The models of crates/wolfe-store, crates/wolfe-node, crates/wolfe-mempool, crates/wolfe-p2p,
-- crates/wolfe-rpc, crates/wolfe-nostr and crates/wolfe-lightning run on concrete inputs.
mod Sample
mod Wire
mod Store
mod Sync
mod Mempool
mod P2p
mod Manager
mod Rpc
mod Nostr
mod Lightning
mod Prune
