-- ===== src/P2p/Connection/Sound.antt =====
-- What a handshake of crates/wolfe-p2p/src/connection.rs that succeeds has read.
use bitcoin_wolfe.Prelude.{
  ℕ, zero, suc, ◌<◌, ◌≡◌, refl, sym, ap, ◌∙◌, inl, inr, Bool, true, false, Bool-cases, List, [],
  ◌∷◌, ◌++◌, length, if◌then◌else◌, arith,
}
use mathlib.Core.Path.{subst}
use bitcoin_wolfe.Bytes.{Bytes}
use bitcoin_wolfe.P2p.Stream
use bitcoin_wolfe.P2p.Stream.{P2pError, no_verack}
use bitcoin_wolfe.P2p.Codec.{read_message}
use bitcoin_wolfe.P2p.Codec.Frames.{read_all}
use bitcoin_wolfe.P2p.Peer.{
  VersionMessage, NetworkMessage, version, verack, send_headers, ping, pong, block, tx, headers,
  other,
}
use bitcoin_wolfe.P2p.Connection.{
  HandshakeLib, Socket, Result, ok, err, stuck, ◌>>=◌, on_socket, PeerConnection, send_ok, send,
  recv, expect_version, read_version, is_verack, await_verack, peer_connection, connect_on,
}

bind-ok :
    {A B : Type 0} (r : Result A) (f : A × Socket → Result B) {b : B × Socket}
    → (r >>= f) ≡ ok b
    → (a : A) × (k : Socket) × (r ≡ ok (a, k)) × (f (a, k) ≡ ok b)
bind-ok (ok (a, k)) f h = (a, k, refl, h)
bind-ok (err e) f h = absurd (ground (arith, h))
bind-ok stuck f h = absurd (ground (arith, h))

ok-injective : {A : Type 0} (p q : A × Socket) → Result.ok p ≡ ok q → p ≡ q
ok-injective p q e = ground (arith, e)

on_socket-ok :
    {A : Type 0} (k : Socket) (r : Stream.Read A) {a : A} {k' : Socket}
    → on_socket k r ≡ ok (a, k')
    → (r ≡ Stream.ok (a, k'.reader))
on_socket-ok k (Stream.ok (a', s)) h =
    ap (λ p. Stream.ok (p.0, p.1.reader)) (ok-injective (a', record k { reader = s }) _ h)
on_socket-ok k (Stream.err x s) h = absurd (ground (arith, h))
on_socket-ok k Stream.stuck h = absurd (ground (arith, h))

is_verack-verack : (P : HandshakeLib) (m : NetworkMessage) → is_verack P m ≡ true → m ≡ verack
unfolding is_verack
is_verack-verack P verack h = refl
is_verack-verack P (version _) h = absurd (ground (arith, h))
is_verack-verack P send_headers h = absurd (ground (arith, h))
is_verack-verack P (ping _) h = absurd (ground (arith, h))
is_verack-verack P (pong _) h = absurd (ground (arith, h))
is_verack-verack P (block _) h = absurd (ground (arith, h))
is_verack-verack P (tx _) h = absurd (ground (arith, h))
is_verack-verack P (headers _) h = absurd (ground (arith, h))
is_verack-verack P (other _) h = absurd (ground (arith, h))

expect_version-ok :
    (P : HandshakeLib) (m : NetworkMessage) (k : Socket) {v : VersionMessage} {k' : Socket}
    → expect_version P m k ≡ ok (v, k')
    → (m ≡ version v) × (k ≡ k')
unfolding expect_version
expect_version-ok P (version v) k h =
    let e = ok-injective (v, k) _ h in (ap (λ p. version p.0) e, ap (λ p. p.1) e)
expect_version-ok P verack k h = absurd (ground (arith, h))
expect_version-ok P send_headers k h = absurd (ground (arith, h))
expect_version-ok P (ping _) k h = absurd (ground (arith, h))
expect_version-ok P (pong _) k h = absurd (ground (arith, h))
expect_version-ok P (block _) k h = absurd (ground (arith, h))
expect_version-ok P (tx _) k h = absurd (ground (arith, h))
expect_version-ok P (headers _) k h = absurd (ground (arith, h))
expect_version-ok P (other _) k h = absurd (ground (arith, h))

module _ (P : HandshakeLib) where
  send_ok-reader :
      (magic : Bytes) (m : P.codec.Message) (k : Socket) (writes : List Bool) {u : Unit {0}}
      {k' : Socket}
      → send_ok P magic m k writes ≡ ok (u, k')
      → k'.reader ≡ k.reader
  unfolding send_ok
  send_ok-reader magic m k [] h = sym (ap (λ p. p.1.reader) (ok-injective _ _ h))
  send_ok-reader magic m k (true ∷ writes) h = sym (ap (λ p. p.1.reader) (ok-injective _ _ h))
  send_ok-reader magic m k (false ∷ writes) h = absurd (ground (arith, h))

  recv-ok :
      (magic : Bytes) (k : Socket) {m : P.codec.Message} {k' : Socket}
      → recv P magic k ≡ ok (m, k')
      → read_message P.codec magic k.reader ≡ Stream.ok (m, k'.reader)
  unfolding recv
  recv-ok magic k h = on_socket-ok k (read_message P.codec magic k.reader) h

  read_all-suc :
      (magic : Bytes) (n : ℕ) (s s' s'' : Stream.Stream) (m : P.codec.Message)
      (ms : List P.codec.Message)
      → read_message P.codec magic s ≡ Stream.ok (m, s')
      → read_all P.codec magic n s' ≡ Stream.ok (ms, s'')
      → read_all P.codec magic (suc n) s ≡ Stream.ok (m ∷ ms, s'')
  unfolding read_all
  read_all-suc magic n s s' s'' m ms one more = rw (one, read_all) (rw (more) refl)

  -- The messages that the reader has taken until a verack.
  abbrev Veracked : Bytes → ℕ → Stream.Stream → Stream.Stream → Type 0
  Veracked magic n s s' =
      (ms : List P.codec.Message) × (m : P.codec.Message) × (length ms < n)
      × (read_all P.codec magic (suc (length ms)) s ≡ Stream.ok (ms ++ m ∷ [], s'))
      × (P.view m ≡ verack)

  await_verack-ok :
      (magic : Bytes) (n : ℕ) (k : Socket) (k' : Socket)
      → await_verack P n magic k ≡ ok (true, k')
      → Veracked magic n k.reader k'.reader
  unfolding await_verack read_all
  await_verack-ok magic zero k k' h =
      absurd (ground (arith, ap (λ p. p.0) (ok-injective (false, k) (true, k') h)))
  await_verack-ok magic (suc n) k k' h =
      let (m, k₁, received, after) =
        bind-ok (recv P magic k)
          (λ (m, k₁). if is_verack P (P.view m) then ok (true, k₁) else await_verack P n magic k₁)
          h in
      let first = recv-ok magic k received in
      elim (Bool-cases (is_verack P (P.view m))) [
        | inl done ↦
            let here =
              ap (λ p. p.1.reader) (ok-injective (true, k₁) (true, k') (rw (done) at after)) in
            (
              [],
              m,
              omega arith,
              read_all-suc magic 0 k.reader k₁.reader k'.reader m [] first
                  (ap (λ s. Stream.ok ([], s)) here),
              is_verack-verack P (P.view m) done,
            )
        | inr going ↦
            let (ms, last, few, all, ver) = await_verack-ok magic n k₁ k' (rw (going) at after) in
            (
              m ∷ ms,
              last,
              omega (arith, few),
              read_all-suc magic (suc (length ms)) k.reader k₁.reader k'.reader m (ms ++ last ∷ [])
                  first all,
              ver,
            )
      ]

  -- What a handshake has read: the version of the peer first, and then a verack as one of the next ten
  -- messages.
  pub record Greeted (magic : Bytes) (theirs : VersionMessage) (before after : Stream.Stream)
      : Type 0 where
    pub first : P.codec.Message
    pub between : List P.codec.Message
    pub last : P.codec.Message
    pub few : length between < 10
    pub all :
        read_all P.codec magic (suc (suc (length between))) before
        ≡ Stream.ok (first ∷ (between ++ last ∷ []), after)
    pub first-version : P.view first ≡ version theirs
    pub last-verack : P.view last ≡ verack

  read_version-ok :
      (magic : Bytes) (k k' : Socket) (theirs : VersionMessage)
      → read_version P magic k ≡ ok (theirs, k')
      → (m : P.codec.Message) × (read_message P.codec magic k.reader ≡ Stream.ok (m, k'.reader))
        × (P.view m ≡ version theirs)
  unfolding read_version
  read_version-ok magic k k' theirs h =
      let (m, k₁, received, after) =
        bind-ok (recv P magic k) (λ (m, k₁). expect_version P (P.view m) k₁) h in
      let (ver, same) = expect_version-ok P (P.view m) k₁ after in
      (m, recv-ok magic k received ∙ ap (λ j. Stream.ok (m, j.reader)) same, ver)

  greeted :
      (magic : Bytes) (theirs : VersionMessage) (k k₁ k₂ k₃ k₄ : Socket)
      → k₁.reader ≡ k.reader
      → read_version P magic k₁ ≡ ok (theirs, k₂)
      → k₃.reader ≡ k₂.reader
      → await_verack P 10 magic k₃ ≡ ok (true, k₄)
      → Greeted magic theirs k.reader k₄.reader
  greeted magic theirs k k₁ k₂ k₃ k₄ same₁ ver same₂ done =
      let (m, read, view) = read_version-ok magic k₁ k₂ theirs ver in
      let (ms, last, few, all, end) = await_verack-ok magic 10 k₃ k₄ done in
      record {
        first = m;
        between = ms;
        last = last;
        few = few;
        all =
            read_all-suc magic (suc (length ms)) k.reader k₂.reader k₄.reader m (ms ++ last ∷ [])
              (subst (λ s. read_message P.codec magic s ≡ Stream.ok (m, k₂.reader)) same₁ read)
              (subst
                (λ s.
                  read_all P.codec magic (suc (length ms)) s
                  ≡ Stream.ok (ms ++ last ∷ [], k₄.reader))
                same₂ all);
        first-version = view;
        last-verack = end;
      }

  decided :
      (got : Bool) (c conn : PeerConnection) (k₄ k' : Socket)
      → (if got then ok (c, k₄) else err no_verack) ≡ ok (conn, k')
      → (got ≡ true) × (conn ≡ c) × (k₄ ≡ k')
  decided true c conn k₄ k' h =
      let e = ok-injective (c, k₄) (conn, k') h in (refl, sym (ap (λ p. p.0) e), ap (λ p. p.1) e)
  decided false c conn k₄ k' h = absurd (ground (arith, h))

  -- An outbound handshake succeeds only when the peer has sent its version first, and its verack as
  -- one of the next ten messages. What the connection keeps of the peer is from that version, and the
  -- stream is left behind the verack.
  pub connect_on-Greeted :
      (magic addr : Bytes) (peer_id now : ℕ) (ours : VersionMessage) (k k' : Socket)
      (conn : PeerConnection)
      → connect_on P magic addr peer_id now ours k ≡ ok (conn, k')
      → (theirs : VersionMessage) × (conn ≡ peer_connection P false addr peer_id now ours theirs)
        × Greeted magic theirs k.reader k'.reader
  unfolding connect_on send read_version
  connect_on-Greeted magic addr peer_id now ours k k' conn h =
      let (_, k₁, e₁, r₁) = bind-ok (send P magic (P.version_message ours) k) _ h in
      let (theirs, k₂, e₂, r₂) = bind-ok (read_version P magic k₁) _ r₁ in
      let (_, k₃, e₃, r₃) = bind-ok (send P magic P.verack_message k₂) _ r₂ in
      let (got, k₄, e₄, r₄) = bind-ok (await_verack P 10 magic k₃) _ r₃ in
      let (yes', same, end) =
        decided got (peer_connection P false addr peer_id now ours theirs) conn k₄ k' r₄ in
      (
        theirs,
        same,
        subst (λ j. Greeted magic theirs k.reader j.reader) end
            (greeted magic theirs k k₁ k₂ k₃ k₄
              (send_ok-reader magic (P.version_message ours) k k.writes (unfold send in e₁)) e₂
              (send_ok-reader magic P.verack_message k₂ k₂.writes (unfold send in e₃))
              (e₄ ∙ ap (λ g. ok (g, k₄)) yes')),
      )
