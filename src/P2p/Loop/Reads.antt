-- ===== src/P2p/Loop/Reads.antt =====
-- What the rounds of `run_peer_loop` of crates/wolfe-p2p/src/manager.rs read from the stream. When
-- another branch of `tokio::select!` wins, the `conn.recv()` of the round is dropped, with the bytes
-- that it has taken off the stream by then.
use bitcoin_wolfe.Prelude.{
  ℕ, suc, ◌≤◌, ◌≡◌, ◌⊎◌, refl, sym, ap, ◌∙◌, Bool, true, false, inl, inr, none, List, [], ◌∷◌, ◌++◌,
  All, map, length, take, drop, arith,
}
use bitcoin_wolfe.Bytes.{Bytes}
use bitcoin_wolfe.P2p.Stream.{Stream, Read, ok, err, stuck, unexpected_eof}
use bitcoin_wolfe.P2p.Codec.{read_message, max_message_size}
use bitcoin_wolfe.P2p.Codec.Frames.{write_all, read_message-write_all}
use bitcoin_wolfe.P2p.Peer.{
  NetworkMessage, version, verack, send_headers, block, tx, headers, ping, pong, other,
}
use bitcoin_wolfe.P2p.Connection.{HandshakeLib}
use bitcoin_wolfe.P2p.Loop.{
  Loop, Event, read_timed_out, received, recv_failed, outbound, tick, run,
  max_protocol_messages_per_sec,
}
use bitcoin_wolfe.P2p.Loop.Ending.{MayStop, run-MayStop}
use bitcoin_wolfe.P2p.Loop.Forward.{forwarded, due, run-forwarded}

-- The branch that wins a round; whether the send in it succeeds; and for the last two, first, how many
-- bytes the dropped `recv` has taken.
pub data Branch : Type 0 where
  times_out : Branch
  receives : Bool → Branch
  sends : ℕ → NetworkMessage → Bool → Branch
  ticks : ℕ → ℕ → Bool → Branch

unfoldable pub drop_recv : ℕ → Stream → Stream
drop_recv taken s = record s { bytes = drop taken s.bytes }

module _ (P : HandshakeLib) where
  -- What the branch finds in the result of `recv`.
  unfoldable pub recv_event : Read P.codec.Message → Bool → Event
  recv_event (ok (m, s)) success = received (P.view m) success
  recv_event (err e s) success = recv_failed e
  recv_event stuck success = recv_failed unexpected_eof

  unfoldable pub after_recv : Read P.codec.Message → Stream → Stream
  after_recv (ok (m, s)) before = s
  after_recv (err e s) before = s
  after_recv stuck before = before

  -- The events of the rounds on a stream.
  unfoldable pub read_events : Bytes → Stream → List (ℕ × Branch) → List (ℕ × Event)
  unfolding drop_recv recv_event after_recv read_message
  read_events magic s [] = []
  read_events magic s ((now, times_out) ∷ branches) =
      (now, read_timed_out) ∷ read_events magic s branches
  read_events magic s ((now, receives success) ∷ branches) =
      let r = read_message P.codec magic s in
      (now, recv_event r success) ∷ read_events magic (after_recv r s) branches
  read_events magic s ((now, sends taken msg success) ∷ branches) =
      (now, outbound msg success) ∷ read_events magic (drop_recv taken s) branches
  read_events magic s ((now, ticks taken nonce success) ∷ branches) =
      (now, tick nonce success) ∷ read_events magic (drop_recv taken s) branches

  -- No `recv` is dropped in the middle of a message.
  abbrev pub Undisturbed : List (ℕ × Branch) → Type 0
  Undisturbed [] = Unit
  Undisturbed ((now, sends taken msg success) ∷ branches) = (taken ≡ 0) × Undisturbed branches
  Undisturbed ((now, ticks taken nonce success) ∷ branches) = (taken ≡ 0) × Undisturbed branches
  Undisturbed ((now, b) ∷ branches) = Undisturbed branches

  -- The rounds in which a message comes in.
  abbrev pub receipts : List (ℕ × Branch) → ℕ
  receipts [] = 0
  receipts ((now, receives success) ∷ branches) = suc (receipts branches)
  receipts ((now, b) ∷ branches) = receipts branches

  -- Messages without pings and pongs.
  abbrev pub for_node : List NetworkMessage → List NetworkMessage
  for_node [] = []
  for_node (ping n ∷ msgs) = for_node msgs
  for_node (pong n ∷ msgs) = for_node msgs
  for_node (msg ∷ msgs) = msg ∷ for_node msgs

  due-received :
      (now : ℕ) (msg : NetworkMessage) (success : Bool) (events : List (ℕ × Event))
      (msgs : List NetworkMessage)
      → due events ≡ for_node msgs
      → due ((now, received msg success) ∷ events) ≡ for_node (msg ∷ msgs)
  due-received now (ping n) success events msgs e = e
  due-received now (pong n) success events msgs e = e
  due-received now (version v) success events msgs e = ap (λ r. version v ∷ r) e
  due-received now verack success events msgs e = ap (λ r. verack ∷ r) e
  due-received now send_headers success events msgs e = ap (λ r. send_headers ∷ r) e
  due-received now (block b) success events msgs e = ap (λ r. block b ∷ r) e
  due-received now (tx b) success events msgs e = ap (λ r. tx b ∷ r) e
  due-received now (headers b) success events msgs e = ap (λ r. headers b ∷ r) e
  due-received now (other b) success events msgs e = ap (λ r. other b ∷ r) e

  -- What is due is what the peer has written, as far as it is read.
  due-write_all :
      (magic : Bytes) (ms : List P.codec.Message) (rest : Bytes) (pieces : List ℕ)
      (branches : List (ℕ × Branch))
      → length magic ≡ 4
      → All (λ m. length (P.codec.payload m) ≤ max_message_size) ms
      → Undisturbed branches
      → receipts branches ≤ length ms
      → due (
          read_events magic
            (record { bytes = write_all P.codec magic [] ms ++ rest; pieces = pieces })
            branches)
        ≡ for_node (map P.view (take (receipts branches) ms))
  unfolding read_events drop_recv recv_event after_recv
  due-write_all magic ms rest pieces [] four fit calm enough = refl
  due-write_all magic ms rest pieces ((now, times_out) ∷ branches) four fit calm enough =
      due-write_all magic ms rest pieces branches four fit calm enough
  due-write_all magic ms rest pieces ((now, sends taken msg success) ∷ branches) four fit (z, calm)
        enough =
      rw (z) (due-write_all magic ms rest pieces branches four fit calm enough)
  due-write_all magic ms rest pieces ((now, ticks taken nonce success) ∷ branches) four fit
        (z, calm) enough =
      rw (z) (due-write_all magic ms rest pieces branches four fit calm enough)
  due-write_all magic [] rest pieces ((now, receives success) ∷ branches) four fit calm enough =
      absurd (omega (arith, enough))
  due-write_all magic (m ∷ ms) rest pieces ((now, receives success) ∷ branches) four (f, fit) calm
        enough =
      rw (read_message-write_all P.codec magic m ms rest pieces four f) (
        due-received now (P.view m) success
          (read_events magic
            (record { bytes = write_all P.codec magic [] ms ++ rest; pieces = pieces }) branches)
          (map P.view (take (receipts branches) ms))
          (due-write_all magic ms rest pieces branches four fit calm (omega (arith, enough))))

  -- With this count of the rate limit, one of the rounds may end the loop: a time out, a send that
  -- fails, a ping, or a message above the limit, when each message counts.
  abbrev pub MayEnd : ℕ → List (ℕ × Branch) → Type 0
  MayEnd count [] = ⊥
  MayEnd count ((now, receives true) ∷ branches) =
      (max_protocol_messages_per_sec ≤ count) ⊎ MayEnd (suc count) branches
  MayEnd count ((now, sends taken msg true) ∷ branches) = MayEnd count branches
  MayEnd count ((now, b) ∷ branches) = Unit

  -- On whole messages, no other round ends the loop.
  MayStop-MayEnd :
      (magic : Bytes) (ms : List P.codec.Message) (rest : Bytes) (pieces : List ℕ)
      (branches : List (ℕ × Branch)) (count : ℕ)
      → length magic ≡ 4
      → All (λ m. length (P.codec.payload m) ≤ max_message_size) ms
      → Undisturbed branches
      → receipts branches ≤ length ms
      → MayStop count (
          read_events magic
            (record { bytes = write_all P.codec magic [] ms ++ rest; pieces = pieces })
            branches)
      → MayEnd count branches
  unfolding read_events drop_recv recv_event after_recv
  MayStop-MayEnd magic ms rest pieces [] count four fit calm enough e = e
  MayStop-MayEnd magic ms rest pieces ((now, times_out) ∷ branches) count four fit calm enough e =
      tt
  MayStop-MayEnd magic ms rest pieces ((now, sends taken msg false) ∷ branches) count four fit calm
        enough e =
      tt
  MayStop-MayEnd magic ms rest pieces ((now, sends taken msg true) ∷ branches) count four fit
        (z, calm) enough e =
      MayStop-MayEnd magic ms rest pieces branches count four fit calm enough (rw (z) at e)
  MayStop-MayEnd magic ms rest pieces ((now, ticks taken nonce success) ∷ branches) count four fit
        calm enough e =
      tt
  MayStop-MayEnd magic ms rest pieces ((now, receives false) ∷ branches) count four fit calm enough
        e =
      tt
  MayStop-MayEnd magic [] rest pieces ((now, receives true) ∷ branches) count four fit calm enough
        e =
      absurd (omega (arith, enough))
  MayStop-MayEnd magic (m ∷ ms) rest pieces ((now, receives true) ∷ branches) count four (f, fit)
        calm enough e =
      let s : Stream = record { bytes = write_all P.codec magic [] ms ++ rest; pieces = pieces } in
      let first = read_message-write_all P.codec magic m ms rest pieces four f in
      let stops : (max_protocol_messages_per_sec ≤ count)
          ⊎ MayStop (suc count) (read_events magic s branches) =
        rw (first) at e in
      elim stops [
        | inl over ↦ inl over
        | inr later ↦ inr (
            MayStop-MayEnd magic ms rest pieces branches (suc count) four fit calm
              (omega (arith, enough)) later)
      ]

  -- Where no dropped `recv` has taken bytes, the messages of at most 4 MB that a peer writes go to the
  -- node in the order in which they were written, without the pings and the pongs, and none is
  -- dropped or repeated before the loop ends: of the messages that the rounds read, the loop has
  -- passed on all, or a beginning of them when it has ended; and it ends only where a round times
  -- out, a send fails, a ping is to be sent, or the messages with those that are counted already go
  -- above the rate limit. The magic has four bytes, and the rounds read no more messages than were
  -- written.
  pub run-write_all :
      (magic : Bytes) (ms : List P.codec.Message) (rest : Bytes) (pieces : List ℕ)
      (branches : List (ℕ × Branch)) (l : Loop)
      → length magic ≡ 4
      → All (λ m. length (P.codec.payload m) ≤ max_message_size) ms
      → Undisturbed branches
      → receipts branches ≤ length ms
      → let r = run l (
          read_events magic
            (record { bytes = write_all P.codec magic [] ms ++ rest; pieces = pieces })
            branches) in
        (left : List NetworkMessage) × (for_node (map P.view (take (receipts branches) ms))
          ≡ forwarded r.0 ++ left)
        × (((r.1 ≡ none) × MayEnd l.rate_count branches) ⊎ (left ≡ []))
  run-write_all magic ms rest pieces branches l four fit calm enough =
      let s : Stream = record { bytes = write_all P.codec magic [] ms ++ rest; pieces = pieces } in
      let (left, all, end) = run-forwarded l (read_events magic s branches) in
      (
        left,
        sym (due-write_all magic ms rest pieces branches four fit calm enough) ∙ all,
        elim end [
          | inl over ↦ inl (
            over,
            MayStop-MayEnd magic ms rest pieces branches l.rate_count four fit calm enough
                (run-MayStop l.rate_count l (read_events magic s branches) (omega arith) over),
          )
          | inr whole ↦ inr whole
        ],
      )
