-- ===== src/P2p/Connection.antt =====
-- The version handshake of crates/wolfe-p2p/src/connection.rs, on a socket once TCP has connected.
-- The parts of the version message that no function reads back, which are the timestamp and the two
-- addresses, are left out.
pub mod Verack
pub mod Sound
use bitcoin_wolfe.Prelude.{
  ℕ, zero, suc, Bool, true, false, Option, none, some, List, [], ◌∷◌, ◌++◌, ◌≡◌, if◌then◌else◌,
}
use bitcoin_wolfe.Bytes.{Bytes, str}
use bitcoin_wolfe.P2p.Stream.{
  P2pError, Stream, Read, connection, expected_version, no_verack, handshake_timed_out, io,
}
use bitcoin_wolfe.P2p.Codec.{MessageLib, read_message, write_message}
use bitcoin_wolfe.P2p.Peer.{VersionMessage, NetworkMessage, version, verack, PeerInfo}

-- The messages of the `bitcoin` crate that the handshake builds, and how it tells apart the ones it
-- reads. `package_version` is the version of the build.
pub record HandshakeLib : Type 1 where
  pub codec : MessageLib
  pub view : codec.Message → NetworkMessage
  pub version_message : VersionMessage → codec.Message
  pub verack_message : codec.Message
  pub package_version : Bytes
  pub view-version : (v : VersionMessage) → view (version_message v) ≡ version v
  pub view-verack : view verack_message ≡ verack

-- The two halves of the TCP stream. Each entry of `writes` says whether one further write succeeds;
-- where there is none it does.
pub record Socket : Type 0 where
  pub reader : Stream
  pub written : Bytes
  pub writes : List Bool

pub data Result {ℓ} (A : Type ℓ) : Type ℓ where
  ok : A × Socket → Result A
  err : P2pError → Result A
  stuck : Result A

infixl 5 ◌>>=◌
abbrev pub ◌>>=◌ {ℓ κ} : {A : Type ℓ} {B : Type κ} → Result A → (A × Socket → Result B) → Result B
ok r >>= f = f r
err e >>= f = err e
stuck >>= f = stuck

-- A result of the reader, on the socket.
abbrev pub on_socket {ℓ} : {A : Type ℓ} → Socket → Read A → Result A
on_socket k (Read.ok (a, s)) = ok (a, record k { reader = s })
on_socket k (Read.err e s) = err e
on_socket k Read.stuck = stuck

-- What the connection keeps, apart from its socket.
pub record PeerConnection : Type 0 where
  pub info : PeerInfo
  pub our_nonce : ℕ
  pub their_nonce : ℕ

module _ (P : HandshakeLib) where
  -- crates/wolfe-types/src/lib.rs
  unfoldable pub user_agent : Bytes
  user_agent = str "/BitcoinWolfe:" ++ (P.package_version ++ str "/")

  unfoldable pub build_version_message : ℕ → ℕ → ℕ → VersionMessage
  unfolding user_agent
  build_version_message services best_height nonce = record {
    version = 70016;
    services = services;
    user_agent = user_agent;
    start_height = best_height;
    relay = true;
    nonce = nonce;
  }

  unfoldable pub send_ok : Bytes → P.codec.Message → Socket → List Bool → Result (Unit {0})
  unfolding write_message
  send_ok magic m k [] = ok (tt, record k { written = write_message P.codec magic k.written m })
  send_ok magic m k (true ∷ writes) =
      ok (tt, record k { written = write_message P.codec magic k.written m; writes = writes })
  send_ok magic m k (false ∷ writes) = err io

  unfoldable pub send : Bytes → P.codec.Message → Socket → Result (Unit {0})
  unfolding send_ok
  send magic m k = send_ok magic m k k.writes

  unfoldable pub recv : Bytes → Socket → Result P.codec.Message
  unfolding read_message
  recv magic k = on_socket k (read_message P.codec magic k.reader)

  unfoldable pub expect_version : NetworkMessage → Socket → Result VersionMessage
  expect_version (version v) k = ok (v, k)
  expect_version _ k = err expected_version

  unfoldable pub read_version : Bytes → Socket → Result VersionMessage
  unfolding recv expect_version
  read_version magic k = do (m, k') ← recv magic k; expect_version (P.view m) k'

  unfoldable pub is_verack : NetworkMessage → Bool
  is_verack verack = true
  is_verack _ = false

  -- Up to `n` messages, until a verack; whether there was one.
  unfoldable pub await_verack : ℕ → Bytes → Socket → Result Bool
  unfolding recv is_verack
  await_verack zero magic k = ok (false, k)
  await_verack (suc n) magic k = do
    (m, k') ← recv magic k
    let later = await_verack n magic k'
    if is_verack (P.view m) then ok (true, k') else later

  unfoldable pub peer_connection :
      Bool → Bytes → ℕ → ℕ → VersionMessage → VersionMessage → PeerConnection
  peer_connection inbound addr peer_id now ours theirs = record {
    info = record {
      id = peer_id;
      addr = addr;
      user_agent = theirs.user_agent;
      version = theirs.version;
      services = theirs.services;
      start_height = theirs.start_height;
      relay = theirs.relay;
      inbound = inbound;
      v2_transport = false;
      connected_at = now;
    };
    our_nonce = ours.nonce;
    their_nonce = theirs.nonce;
  }

  -- The handshake of an outbound connection; `ours` is our version message.
  unfoldable pub connect_on :
      Bytes → Bytes → ℕ → ℕ → VersionMessage → Socket → Result PeerConnection
  unfolding send read_version await_verack peer_connection
  connect_on magic addr peer_id now ours k₀ = do
    (_, k₁) ← send magic (P.version_message ours) k₀
    (theirs, k₂) ← read_version magic k₁
    (_, k₃) ← send magic P.verack_message k₂
    (got_verack, k₄) ← await_verack 10 magic k₃
    if got_verack
        then ok (peer_connection false addr peer_id now ours theirs, k₄)
        else err no_verack

  -- From the outcome of `TcpStream::connect`, none where it fails or takes 10 seconds.
  unfoldable pub connect :
      Bytes → Bytes → ℕ → ℕ → VersionMessage → Option Socket → Result PeerConnection
  unfolding connect_on
  connect magic addr peer_id now ours none = err connection
  connect magic addr peer_id now ours (some k) = connect_on magic addr peer_id now ours k

  unfoldable pub accept_inner :
      Bytes → Bytes → ℕ → ℕ → VersionMessage → Socket → Result PeerConnection
  unfolding send read_version await_verack peer_connection
  accept_inner magic addr peer_id now ours k₀ = do
    (theirs, k₁) ← read_version magic k₀
    (_, k₂) ← send magic (P.version_message ours) k₁
    (_, k₃) ← send magic P.verack_message k₂
    (got_verack, k₄) ← await_verack 10 magic k₃
    ok (peer_connection true addr peer_id now ours theirs, k₄)

  -- With whether the 10 seconds are over before the handshake is.
  unfoldable pub accept :
      Bytes → Bytes → ℕ → ℕ → VersionMessage → Bool → Socket → Result PeerConnection
  unfolding accept_inner
  accept magic addr peer_id now ours true k = err handshake_timed_out
  accept magic addr peer_id now ours false k = accept_inner magic addr peer_id now ours k
