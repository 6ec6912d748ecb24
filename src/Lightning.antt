-- ===== src/Lightning.antt =====
-- crates/wolfe-lightning: what the Lightning node keeps in its database.
pub mod Persister
