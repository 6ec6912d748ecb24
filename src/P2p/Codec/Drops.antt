-- ===== src/P2p/Codec/Drops.antt =====
-- What `read_message` of crates/wolfe-p2p/src/message.rs drops when it finds the magic again.
use bitcoin_wolfe.Prelude.{
  ℕ, zero, suc, ◌+◌, ◌-◌, ◌≤◌, ◌<◌, ◌≡◌, ◌≢◌, refl, sym, ap, ◌∙◌, true, false, leb, none, some, [],
  ◌∷◌, ◌++◌, if_neg, ltb, min, length, length-append, take, drop, take-append_drop, length-take,
  length-take-le, length-drop, arith,
}
use bitcoin_wolfe.Bytes.{Bytes, bytes_discrete}
use bitcoin_wolfe.P2p.Stream.{Stream, Read, ok, piece, read, read_exact-enough}
use bitcoin_wolfe.P2p.Codec.{
  max_resync_bytes, position, header_at, tail, after_read, resync, read_header,
}

-- The window of the second round.
abbrev pub second_window : Stream → Bytes
second_window s = tail (take 24 s.bytes) ++ (read 512 (record s { bytes = drop 24 s.bytes })).0

after_read-cons :
    (chunk : Bytes) (s : Stream) (next : Read Bytes)
    → 0 < length chunk
    → after_read chunk s next ≡ next
unfolding after_read
after_read-cons [] s next h = absurd (omega arith)
after_read-cons (b ∷ bs) s next h = refl

header_at-whole :
    (window : Bytes) (pos : ℕ) (s : Stream)
    → pos + 24 < length window
    → header_at window pos s ≡ ok (take 24 (drop pos window), s)
unfolding header_at
header_at-whole window pos s more =
    let whole : leb 24 (length window - pos) ≡ true = ground (arith, more) in rw (whole) refl

two_rounds :
    (fuel : ℕ) (magic header : Bytes) (s : Stream) (pos : ℕ)
    → length header ≡ 24
    → 0 < length (read 512 s).0
    → 0 < fuel
    → position magic header ≡ none
    → position magic (tail header ++ (read 512 s).0) ≡ some pos
    → pos + 24 < length (tail header ++ (read 512 s).0)
    → resync (suc fuel) magic header 0 s
      ≡ ok (take 24 (drop pos (tail header ++ (read 512 s).0)), (read 512 s).1)
unfolding resync
two_rounds zero magic header s pos l some_read h first second more = absurd (omega (arith, h))
two_rounds (suc fuel) magic header s pos l some_read h first second more =
    let window = tail header ++ (read 512 s).0 in
    let near : ltb max_resync_bytes (0 + (length header - 3)) ≡ false = ground (arith, l) in
    rw (first, resync)
      (rw (near) (
        after_read-cons (read 512 s).0 (read 512 s).1
          (resync (suc fuel) magic window (0 + (length header - 3)) (read 512 s).1) some_read
        ∙ (rw (second, resync) (header_at-whole window pos (read 512 s).1 more))))

length-tail : (window : Bytes) → length (tail window) ≤ 3
unfolding tail
length-tail window = omega (arith, length-drop (length window - min (length window) 3) window)

length-read : (limit : ℕ) (s : Stream) → length (read limit s).0 ≤ length s.bytes
unfolding read
length-read limit s = length-take-le (piece limit s.pieces) s.bytes

-- Where the first 24 bytes do not show the magic, and one `read` brings it in with more than its
-- header, `read_header` returns that header and drops the bytes of the frame that came with it: it
-- leaves the stream behind them.
pub read_header_drops :
    (magic : Bytes) (s : Stream) (pos : ℕ)
    → 24 ≤ length s.bytes
    → take 4 (take 24 s.bytes) ≢ magic
    → position magic (take 24 s.bytes) ≡ none
    → position magic (second_window s) ≡ some pos
    → pos + 24 < length (second_window s)
    → let behind = (read 512 (record s { bytes = drop 24 s.bytes })).1 in
      (lost : Bytes) × (lost ≢ [])
      × (read_header magic s ≡ ok (take 24 (drop pos (second_window s)), behind))
      × (drop pos (second_window s) ≡ take 24 (drop pos (second_window s)) ++ lost)
unfolding read_header
read_header_drops magic s pos enough other first second more =
    let header = take 24 s.bytes in
    let s' = record s { bytes = drop 24 s.bytes } in
    let chunk = read 512 s' in
    let window = second_window s in
    let len = length-drop pos window in
    let some_read : 0 < length chunk.0 =
      omega (arith, more, length-tail header, length-append (tail header) chunk.0) in
    let lost = drop 24 (drop pos window) in
    let some_lost : lost ≢ [] =
      λ e. omega (arith, ap length e, length-drop 24 (drop pos window), len, more) in
    (
      lost,
      some_lost,
      rw (read_exact-enough 24 s enough) (
          rw (if_neg (bytes_discrete (take 4 header) magic) other) (
            two_rounds (length (drop 24 s.bytes)) magic header s' pos
              (length-take 24 s.bytes enough) some_read
              (omega (arith, some_read, length-read 512 s')) first second more)),
      sym (take-append_drop 24 (drop pos window)),
    )
