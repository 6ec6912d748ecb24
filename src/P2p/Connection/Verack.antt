-- ===== src/P2p/Connection/Verack.antt =====
-- Handshakes of crates/wolfe-p2p/src/connection.rs that succeed.
use bitcoin_wolfe.Prelude.{
  ℕ, zero, suc, ◌≤◌, ◌<◌, ◌≡◌, refl, true, false, List, [], ◌∷◌, ◌++◌, length, All, arith,
}
use bitcoin_wolfe.Bytes.{Bytes}
use bitcoin_wolfe.P2p.Codec.{max_message_size, write_message}
use bitcoin_wolfe.P2p.Codec.Frames.{write_all, read_message-write_all}
use bitcoin_wolfe.P2p.Peer.{VersionMessage}
use bitcoin_wolfe.P2p.Connection.{
  HandshakeLib, Socket, ok, send_ok, send, recv, expect_version, read_version, is_verack,
  await_verack, peer_connection, connect_on, accept_inner,
}

module _ (P : HandshakeLib) where
  -- A message of at most 4 MB.
  abbrev pub Fits : P.codec.Message → Type 0
  Fits m = length (P.codec.payload m) ≤ max_message_size

  -- One that may come between the version and the verack.
  abbrev pub Feature : P.codec.Message → Type 0
  Feature m = Fits m × (is_verack P (P.view m) ≡ false)

  -- A socket on which these messages come, and then other bytes.
  abbrev pub incoming : Bytes → List P.codec.Message → Bytes → List ℕ → Bytes → Socket
  incoming magic ms rest pieces written = record {
    reader = record { bytes = write_all P.codec magic [] ms ++ rest; pieces = pieces };
    written = written;
    writes = [];
  }

  recv-incoming :
      (magic rest out : Bytes) (pieces : List ℕ) (m : P.codec.Message) (ms : List P.codec.Message)
      → length magic ≡ 4
      → Fits m
      → recv P magic (incoming magic (m ∷ ms) rest pieces out)
        ≡ ok (m, incoming magic ms rest pieces out)
  unfolding recv
  recv-incoming magic rest out pieces m ms four fit =
      rw (read_message-write_all P.codec magic m ms rest pieces four fit) refl

  read_version-incoming :
      (magic rest out : Bytes) (pieces : List ℕ) (theirs : VersionMessage)
      (ms : List P.codec.Message)
      → length magic ≡ 4
      → Fits (P.version_message theirs)
      → read_version P magic (incoming magic (P.version_message theirs ∷ ms) rest pieces out)
        ≡ ok (theirs, incoming magic ms rest pieces out)
  unfolding read_version
  read_version-incoming magic rest out pieces theirs ms four fit =
      rw (recv-incoming magic rest out pieces (P.version_message theirs) ms four fit)
        (rw (P.view-version theirs, expect_version) refl)

  await_verack-incoming :
      (n : ℕ) (magic rest out : Bytes) (pieces : List ℕ) (features : List P.codec.Message)
      → length magic ≡ 4
      → All Feature features
      → Fits P.verack_message
      → length features < n
      → await_verack P n magic (incoming magic (features ++ P.verack_message ∷ []) rest pieces out)
        ≡ ok (true, incoming magic [] rest pieces out)
  unfolding await_verack
  await_verack-incoming zero magic rest out pieces features four all fit few =
      absurd (omega (arith, few))
  await_verack-incoming (suc n) magic rest out pieces [] four all fit few =
      rw (recv-incoming magic rest out pieces P.verack_message [] four fit)
        (rw (P.view-verack, is_verack) refl)
  await_verack-incoming (suc n) magic rest out pieces (m ∷ features) four ((small, differs), all)
        fit few =
      rw (recv-incoming magic rest out pieces m (features ++ P.verack_message ∷ []) four small) (
        rw (differs) (
          await_verack-incoming n magic rest out pieces features four all fit (omega (arith, few))))

  -- An outbound handshake succeeds with a peer that sends its version, at most nine other messages,
  -- and its verack, each of at most 4 MB, where our writes succeed. It keeps what the version of the
  -- peer says and both nonces, has written our version and verack, and leaves the stream behind the
  -- verack of the peer.
  pub connect_on-verack :
      (magic addr rest out : Bytes) (peer_id now : ℕ) (pieces : List ℕ)
      (ours theirs : VersionMessage) (features : List P.codec.Message)
      → length magic ≡ 4
      → Fits (P.version_message theirs)
      → All Feature features
      → Fits P.verack_message
      → length features < 10
      → connect_on P magic addr peer_id now ours (
          incoming magic
            (P.version_message theirs ∷ (features ++ P.verack_message ∷ []))
            rest
            pieces
            out)
        ≡ ok (
          peer_connection P false addr peer_id now ours theirs,
          incoming magic [] rest pieces
              (write_all P.codec magic out (P.version_message ours ∷ P.verack_message ∷ [])),
        )
  unfolding connect_on send send_ok write_all
  connect_on-verack magic addr rest out peer_id now pieces ours theirs features four fit all fit'
        few =
      let first = write_message P.codec magic out (P.version_message ours) in
      let both = write_message P.codec magic first P.verack_message in
      rw
        (read_version-incoming magic rest first pieces theirs (features ++ P.verack_message ∷ [])
          four fit)
        (rw (await_verack-incoming 10 magic rest both pieces features four all fit' few) refl)

  accept_inner-verack :
      (magic addr rest out : Bytes) (peer_id now : ℕ) (pieces : List ℕ)
      (ours theirs : VersionMessage) (features : List P.codec.Message)
      → length magic ≡ 4
      → Fits (P.version_message theirs)
      → All Feature features
      → Fits P.verack_message
      → length features < 10
      → accept_inner P magic addr peer_id now ours (
          incoming magic
            (P.version_message theirs ∷ (features ++ P.verack_message ∷ []))
            rest
            pieces
            out)
        ≡ ok (
          peer_connection P true addr peer_id now ours theirs,
          incoming magic [] rest pieces
              (write_all P.codec magic out (P.version_message ours ∷ P.verack_message ∷ [])),
        )
  unfolding accept_inner send send_ok write_all
  accept_inner-verack magic addr rest out peer_id now pieces ours theirs features four fit all fit'
        few =
      let first = write_message P.codec magic out (P.version_message ours) in
      let both = write_message P.codec magic first P.verack_message in
      rw
        (read_version-incoming magic rest out pieces theirs (features ++ P.verack_message ∷ []) four
          fit)
        (rw (await_verack-incoming 10 magic rest both pieces features four all fit' few) refl)

  -- What a node writes in a handshake.
  abbrev pub greeting : VersionMessage → List P.codec.Message
  greeting v = P.version_message v ∷ P.verack_message ∷ []

  -- Two nodes shake hands: the outbound side, on what the inbound side writes, and the inbound side,
  -- on what the outbound side writes, both succeed, each having written just that, and each keeps the
  -- nonce of the other.
  pub handshake_both :
      (magic addr addr' : Bytes) (id id' now now' : ℕ) (pieces pieces' : List ℕ)
      (a b : VersionMessage)
      → length magic ≡ 4
      → Fits (P.version_message a)
      → Fits (P.version_message b)
      → Fits P.verack_message
      → (connect_on P magic addr id now a (incoming magic (greeting b) [] pieces [])
          ≡ ok (
            peer_connection P false addr id now a b,
            incoming magic [] [] pieces (write_all P.codec magic [] (greeting a)),
          ))
        × (accept_inner P magic addr' id' now' b (incoming magic (greeting a) [] pieces' [])
            ≡ ok (
              peer_connection P true addr' id' now' b a,
              incoming magic [] [] pieces' (write_all P.codec magic [] (greeting b)),
            ))
  handshake_both magic addr addr' id id' now now' pieces pieces' a b four fit_a fit_b fit = (
    connect_on-verack magic addr [] [] id now pieces a b [] four fit_b tt fit (omega arith),
    accept_inner-verack magic addr' [] [] id' now' pieces' b a [] four fit_a tt fit (omega arith),
  )
