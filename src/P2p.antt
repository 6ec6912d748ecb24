-- ===== src/P2p.antt =====
-- crates/wolfe-p2p: the peer-to-peer protocol.
pub mod Stream
pub mod Codec
pub mod Peer
pub mod Loop
pub mod Connection
pub mod Manager
