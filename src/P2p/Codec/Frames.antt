-- ===== src/P2p/Codec/Frames.antt =====
-- Frames of crates/wolfe-p2p/src/message.rs: what `write_message` wrote is read back, and what
-- `read_message` does with a stream that begins with the magic.
use bitcoin_wolfe.Prelude.{
  ℕ, zero, suc, ◌+◌, ◌^◌, ◌≤◌, ◌<◌, ◌≡◌, refl, sym, ap, ◌∙◌, inl, inr, false, Bool-cases, ltb→lt,
  ltb-false, some, List, [], ◌∷◌, ◌++◌, if_pos, ltb, if◌then◌else◌, length, length-append, take,
  drop, take-append, drop-append, take-take, take-append_take, drop-drop, length-drop, All, arith,
}
use mathlib.Core.List.{append_assoc, append-nil}
use bitcoin_wolfe.Bytes.{
  Bytes, bytes_discrete, to_le_bytes, from_le_bytes, from_le-to_le, length-to_le,
}
use bitcoin_wolfe.P2p.Stream.{
  Stream, Read, ok, err, ◌>>=◌, read_exact-append, read_exact-short, read_exact-enough,
  message_too_large, unexpected_eof,
}
use bitcoin_wolfe.P2p.Codec.{
  MessageLib, max_message_size, read_header, payload_len, decoded, read_payload, read_message,
  header_of, write_message,
}

module _ (N : MessageLib) where
  length-header_of :
      (magic : Bytes) (m : N.Message) → length magic ≡ 4 → 24 ≡ length (header_of N magic m)
  unfolding header_of
  length-header_of magic m four =
      let rest = to_le_bytes 4 (length (N.payload m)) ++ N.checksum (N.payload m) in
      omega (
        arith,
        four,
        length-append magic (N.command m ++ rest),
        length-append (N.command m) rest,
        length-append (to_le_bytes 4 (length (N.payload m))) (N.checksum (N.payload m)),
        N.length-command m,
        N.length-checksum (N.payload m),
        length-to_le 4 (length (N.payload m)),
      )

  take-header_of :
      (magic : Bytes) (m : N.Message) → length magic ≡ 4 → take 4 (header_of N magic m) ≡ magic
  unfolding header_of
  take-header_of magic m four =
      let rest =
        N.command m ++ (to_le_bytes 4 (length (N.payload m)) ++ N.checksum (N.payload m)) in
      ap (λ n. take n (magic ++ rest)) (sym four) ∙ take-append magic rest

  payload_len-header_of :
      (magic : Bytes) (m : N.Message)
      → length magic ≡ 4
      → length (N.payload m) < 2 ^ 32
      → payload_len (header_of N magic m) ≡ length (N.payload m)
  unfolding payload_len header_of
  payload_len-header_of magic m four small =
      let len = to_le_bytes 4 (length (N.payload m)) in
      let front = magic ++ N.command m in
      let e : 16 ≡ length front =
        omega (arith, four, length-append magic (N.command m), N.length-command m) in
      let f : 4 ≡ length len = omega (arith, length-to_le 4 (length (N.payload m))) in
      ap (λ b. from_le_bytes (take 4 b))
        (ap (drop 16) (sym (append_assoc magic (N.command m) (len ++ N.checksum (N.payload m))))
          ∙ ap (λ n. drop n (front ++ (len ++ N.checksum (N.payload m)))) e
          ∙ drop-append front (len ++ N.checksum (N.payload m)))
      ∙ ap from_le_bytes (
          ap (λ n. take n (len ++ N.checksum (N.payload m))) f
          ∙ take-append len (N.checksum (N.payload m)))
      ∙ from_le-to_le 4 (length (N.payload m)) (omega (arith, small))

  read_header-magic :
      (magic : Bytes) (s : Stream)
      → 24 ≤ length s.bytes
      → take 4 s.bytes ≡ magic
      → read_header magic s ≡ ok (take 24 s.bytes, record s { bytes = drop 24 s.bytes })
  unfolding read_header
  read_header-magic magic s enough e =
      let here : take 4 (take 24 s.bytes) ≡ magic = take-take 4 24 s.bytes (omega arith) ∙ e in
      rw (read_exact-enough 24 s enough)
        (rw (if_pos (bytes_discrete (take 4 (take 24 s.bytes)) magic) here) refl)

  read_header-short :
      (magic : Bytes) (s : Stream)
      → length s.bytes < 24
      → read_header magic s ≡ err unexpected_eof (record s { bytes = [] })
  unfolding read_header
  read_header-short magic s short = rw (read_exact-short 24 s short) refl

  read_payload-frame :
      (s : Stream)
      → 24 ≤ length s.bytes
      → let len = payload_len (take 24 s.bytes) in
        read_payload N (take 24 s.bytes) (record s { bytes = drop 24 s.bytes }) ≡ (
          if ltb max_message_size len
          then err (message_too_large len) (record s { bytes = drop 24 s.bytes })
          else if ltb (length s.bytes) (24 + len)
          then err unexpected_eof (record s { bytes = [] })
          else decoded N
              (N.consensus_decode (take (24 + len) s.bytes))
              (record s { bytes = drop (24 + len) s.bytes }))
  unfolding read_payload
  read_payload-frame s enough =
      let len = payload_len (take 24 s.bytes) in
      let rest = record s { bytes = drop 24 s.bytes } in
      let left = length-drop 24 s.bytes in
      elim (Bool-cases (ltb max_message_size len)) [
        | inl big ↦ rw (big, read_payload) refl
        | inr fits ↦ elim (Bool-cases (ltb (length s.bytes) (24 + len))) [
          | inl short ↦
              let cut : length (drop 24 s.bytes) < len =
                omega (arith, left, enough, ltb→lt _ _ short) in
              rw (fits, read_payload) (rw (short) (rw (read_exact-short len rest cut) refl))
          | inr long ↦
              let whole : len ≤ length (drop 24 s.bytes) =
                omega (arith, left, enough, ltb-false _ _ long) in
              rw (fits, read_payload)
                (rw (long) (
                  rw (read_exact-enough len rest whole)
                    (rw (take-append_take 24 len s.bytes, drop-drop 24 len s.bytes) refl)))
        ]
      ]

  -- On a stream that begins with the magic, `read_message` fails at the end of the stream if the
  -- header or the payload is cut short; it refuses a payload above 4 MB, before it reads it; and
  -- otherwise it takes exactly the frame off the stream, whether or not the frame decodes.
  pub read_message-frame :
      (magic : Bytes) (s : Stream)
      → take 4 s.bytes ≡ magic
      → let len = payload_len (take 24 s.bytes) in
        read_message N magic s ≡ (
          if ltb (length s.bytes) 24
          then err unexpected_eof (record s { bytes = [] })
          else if ltb max_message_size len
          then err (message_too_large len) (record s { bytes = drop 24 s.bytes })
          else if ltb (length s.bytes) (24 + len)
          then err unexpected_eof (record s { bytes = [] })
          else decoded N
              (N.consensus_decode (take (24 + len) s.bytes))
              (record s { bytes = drop (24 + len) s.bytes }))
  unfolding read_message
  read_message-frame magic s e = elim (Bool-cases (ltb (length s.bytes) 24)) [
    | inl short ↦ rw (short) (rw (read_header-short magic s (ltb→lt _ _ short)) refl)
    | inr long ↦
        let enough = ltb-false _ _ long in
        rw (long) (rw (read_header-magic magic s enough e) (read_payload-frame s enough))
  ]

  header-read_header :
      (magic : Bytes) (m : N.Message) (rest : Bytes) (pieces : List ℕ)
      → length magic ≡ 4
      → read_header magic (record { bytes = header_of N magic m ++ rest; pieces = pieces })
        ≡ ok (header_of N magic m, record { bytes = rest; pieces = pieces })
  unfolding read_header
  header-read_header magic m rest pieces four =
      rw (read_exact-append 24 (header_of N magic m) rest pieces (length-header_of magic m four)) (
        rw
          (if_pos (bytes_discrete (take 4 (header_of N magic m)) magic)
            (take-header_of magic m four))
          refl)

  payload-read_payload :
      (magic : Bytes) (m : N.Message) (rest : Bytes) (pieces : List ℕ)
      → length magic ≡ 4
      → length (N.payload m) ≤ max_message_size
      → read_payload N
          (header_of N magic m)
          (record { bytes = N.payload m ++ rest; pieces = pieces })
        ≡ ok (m, record { bytes = rest; pieces = pieces })
  unfolding read_payload decoded
  payload-read_payload magic m rest pieces four fits =
      let len = payload_len-header_of magic m four (omega (arith, fits)) in
      let small : ltb max_message_size (length (N.payload m)) ≡ false = ground (arith, fits) in
      let back : N.consensus_decode (header_of N magic m ++ N.payload m) ≡ some m =
        (unfold header_of in N.decode-frame magic m four) in
      rw (len, small)
        (rw (read_exact-append (length (N.payload m)) (N.payload m) rest pieces refl)
          (rw (back, decoded) refl))

  -- One message of at most 4 MB, and what follows it.
  read_message-write_message :
      (magic : Bytes) (m : N.Message) (rest : Bytes) (pieces : List ℕ)
      → length magic ≡ 4
      → length (N.payload m) ≤ max_message_size
      → read_message N magic
          (record { bytes = header_of N magic m ++ (N.payload m ++ rest); pieces = pieces })
        ≡ ok (m, record { bytes = rest; pieces = pieces })
  unfolding read_message
  read_message-write_message magic m rest pieces four fits =
      rw (header-read_header magic m (N.payload m ++ rest) pieces four)
        (payload-read_payload magic m rest pieces four fits)

  -- `write_message` for each message, and as many calls of `read_message`.
  unfoldable pub write_all : Bytes → Bytes → List N.Message → Bytes
  unfolding write_message
  write_all magic out [] = out
  write_all magic out (m ∷ ms) = write_all magic (write_message N magic out m) ms

  unfoldable pub read_all : Bytes → ℕ → Stream → Read (List N.Message)
  unfolding read_message
  read_all magic zero s = ok ([], s)
  read_all magic (suc n) s = do
    (m, s') ← read_message N magic s
    (ms, s'') ← read_all magic n s'
    ok (m ∷ ms, s'')

  write_all-append :
      (magic out : Bytes) (ms : List N.Message)
      → write_all magic out ms ≡ out ++ write_all magic [] ms
  unfolding write_all
  write_all-append magic out [] = sym (append-nil out)
  write_all-append magic out (m ∷ ms) =
      let frame = header_of N magic m ++ N.payload m in
      write_all-append magic (out ++ frame) ms
      ∙ append_assoc out frame (write_all magic [] ms)
      ∙ ap (λ b. out ++ b) (sym (write_all-append magic frame ms))

  -- The first of several messages.
  pub read_message-write_all :
      (magic : Bytes) (m : N.Message) (ms : List N.Message) (rest : Bytes) (pieces : List ℕ)
      → length magic ≡ 4
      → length (N.payload m) ≤ max_message_size
      → read_message N magic
          (record { bytes = write_all magic [] (m ∷ ms) ++ rest; pieces = pieces })
        ≡ ok (m, record { bytes = write_all magic [] ms ++ rest; pieces = pieces })
  unfolding write_all
  read_message-write_all magic m ms rest pieces four fit =
      let later = write_all magic [] ms ++ rest in
      let frame = header_of N magic m ++ N.payload m in
      let e : write_all magic frame ms ++ rest ≡ header_of N magic m ++ (N.payload m ++ later) =
        ap (λ b. b ++ rest) (write_all-append magic frame ms)
        ∙ append_assoc frame (write_all magic [] ms) rest
        ∙ append_assoc (header_of N magic m) (N.payload m) later in
      rw (e) (read_message-write_message magic m later pieces four fit)

  -- Messages of at most 4 MB that are written one after the other are read back in the same order,
  -- whatever follows them, and the stream is left at what follows.
  pub read_all-write_all :
      (magic : Bytes) (ms : List N.Message) (rest : Bytes) (pieces : List ℕ)
      → length magic ≡ 4
      → All (λ m. length (N.payload m) ≤ max_message_size) ms
      → read_all magic
          (length ms)
          (record { bytes = write_all magic [] ms ++ rest; pieces = pieces })
        ≡ ok (ms, record { bytes = rest; pieces = pieces })
  unfolding read_all
  read_all-write_all magic [] rest pieces four fits = (unfold write_all in refl)
  read_all-write_all magic (m ∷ ms) rest pieces four (fit, fits) =
      rw (read_message-write_all magic m ms rest pieces four fit)
        (rw (read_all-write_all magic ms rest pieces four fits) refl)
