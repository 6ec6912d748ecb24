-- ===== src/Rpc.antt =====
-- crates/wolfe-rpc: who may make a request of the HTTP interface.
pub mod L402
pub mod Auth
