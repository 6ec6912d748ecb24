-- ===== src/Store.antt =====
-- crates/wolfe-store: the node's persistent store over redb tables.
pub mod Error
pub mod Tables
pub mod Headers
pub mod Meta
pub mod Node
pub mod Peers
