-- ===== src/Sync.antt =====
-- crates/wolfe-node/src/sync.rs: the header-first synchronisation engine.
pub mod State
pub mod Search
pub mod Request
pub mod Peers
pub mod Headers
pub mod Inv
pub mod Blocks
pub mod Engine
