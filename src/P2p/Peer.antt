-- ===== src/P2p/Peer.antt =====
-- crates/wolfe-p2p/src/peer.rs, and the messages of the `bitcoin` crate that crates/wolfe-p2p tells
-- apart. A time is in nanoseconds.
use bitcoin_wolfe.Prelude.{ℕ, ◌+◌, ◌-◌, ◌^◌, min, Bool, false, leb, Option, none}
use bitcoin_wolfe.Bytes.{Bytes}

abbrev pub second : ℕ
second = 1000000000

-- `VersionMessage`, with the fields that are read; `NetworkMessage`, where the payload of a message
-- that is only passed on is its bytes, and `other` is every further variant.
pub record VersionMessage : Type 0 where
  pub version : ℕ
  pub services : ℕ
  pub user_agent : Bytes
  pub start_height : ℕ
  pub relay : Bool
  pub nonce : ℕ

pub data NetworkMessage : Type 0 where
  version : VersionMessage → NetworkMessage
  verack send_headers : NetworkMessage
  ping pong : ℕ → NetworkMessage
  block tx headers other : Bytes → NetworkMessage

pub record PeerInfo : Type 0 where
  pub id : ℕ
  pub addr : Bytes
  pub user_agent : Bytes
  pub version : ℕ
  pub services : ℕ
  pub start_height : ℕ
  pub relay : Bool
  pub inbound : Bool
  pub v2_transport : Bool
  pub connected_at : ℕ

pub record Peer : Type 0 where
  pub info : PeerInfo
  pub last_seen : ℕ
  pub last_ping : Option ℕ
  pub ping_nonce : Option ℕ
  pub ping_latency_ms : Option ℕ
  pub bytes_sent : ℕ
  pub bytes_received : ℕ
  pub misbehavior_score : ℕ
  pub syncing_headers : Bool
  pub syncing_blocks : Bool

unfoldable pub new_peer : PeerInfo → Peer
new_peer info = record {
  info = info;
  last_seen = info.connected_at;
  last_ping = none;
  ping_nonce = none;
  ping_latency_ms = none;
  bytes_sent = 0;
  bytes_received = 0;
  misbehavior_score = 0;
  syncing_headers = false;
  syncing_blocks = false;
}

-- The peer with the score added, and whether it should be banned.
unfoldable pub record_misbehavior : Peer → ℕ → Peer × Bool
record_misbehavior peer score =
    let total = min (2 ^ 32 - 1) (peer.misbehavior_score + score) in
    (record peer { misbehavior_score = total }, leb 100 total)
