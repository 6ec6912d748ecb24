-- ===== src/Mempool.antt =====
-- crates/wolfe-mempool: unconfirmed transactions and the policy that admits them.
pub mod Types
pub mod Policy
pub mod Pool
