-- ===== src/P2p/Codec.antt =====
-- `MessageCodec` of crates/wolfe-p2p/src/message.rs. Its `read_buf` is cleared before each use, so
-- it is no state; the four bytes of `magic` are an argument.
pub mod Frames
pub mod Resync
pub mod Drops
use bitcoin_wolfe.Prelude.{
  ℕ, zero, suc, ◌+◌, ◌-◌, ◌*◌, ◌≡◌, refl, Option, none, some, List, [], ◌∷◌, ◌++◌, ite, ltb, leb,
  if◌then◌else◌, length, take, drop, min,
}
use bitcoin_wolfe.Bytes.{Bytes, bytes_discrete, to_le_bytes, from_le_bytes}
use bitcoin_wolfe.P2p.Stream.{
  P2pError, Stream, Read, ok, err, stuck, ◌>>=◌, read_exact, read, message_too_large, not_resynced,
  encode, unexpected_eof,
}

-- `NetworkMessage`, and the frame of the peer-to-peer protocol that `RawNetworkMessage` of the
-- `bitcoin` crate encodes: the magic, the command, the length of the payload, the checksum, the
-- payload. A message is decoded from its own frame.
pub record MessageLib : Type 1 where
  pub Message : Type 0
  pub command : Message → Bytes
  pub payload : Message → Bytes
  pub checksum : Bytes → Bytes
  pub consensus_decode : Bytes → Option Message
  pub length-command : (m : Message) → length (command m) ≡ 12
  pub length-checksum : (b : Bytes) → length (checksum b) ≡ 4
  pub decode-frame :
      (magic : Bytes) (m : Message)
      → length magic ≡ 4
      → consensus_decode (
          (magic ++ (command m ++ (to_le_bytes 4 (length (payload m)) ++ checksum (payload m))))
          ++ payload m)
        ≡ some m

abbrev pub max_message_size : ℕ
max_message_size = 4 * 1024 * 1024

abbrev pub max_resync_bytes : ℕ
max_resync_bytes = 1024 * 1024

-- `window.windows(4).position(|w| w == expected)`, where `expected` has four bytes.
unfoldable pub position : Bytes → Bytes → Option ℕ
position expected [] = none
position expected (b ∷ rest) =
    let later = position expected rest in
    ite (bytes_discrete (take 4 (b ∷ rest)) expected) (some 0)
      (elim later [ none ↦ none | some n ↦ some (suc n) ])

-- The header that starts at `pos` of the window; what the window has after it is dropped.
unfoldable pub header_at : Bytes → ℕ → Stream → Read Bytes
header_at window pos s =
    let available = length window - pos in
    if leb 24 available
    then ok (take 24 (drop pos window), s)
    else (do (rest, s') ← read_exact (24 - available) s; ok (drop pos window ++ rest, s'))

-- The last three bytes of the window.
unfoldable pub tail : Bytes → Bytes
tail window = drop (length window - min (length window) 3) window

-- A `read` that got nothing, or the next round.
unfoldable pub after_read : Bytes → Stream → Read Bytes → Read Bytes
after_read [] s next = err unexpected_eof s
after_read (b ∷ bs) s next = next

-- The loop that looks for the magic; each round takes a byte at least.
unfoldable pub resync : ℕ → Bytes → Bytes → ℕ → Stream → Read Bytes
unfolding position header_at tail after_read
resync zero expected window scanned s = stuck
resync (suc fuel) expected window scanned s =
    let scanned' = scanned + (length window - 3) in
    let chunk = read 512 s in
    let next = resync fuel expected (tail window ++ chunk.0) scanned' chunk.1 in
    elim (position expected window) [
      | some pos ↦ header_at window pos s
      | none ↦
          if ltb max_resync_bytes scanned'
          then err (not_resynced scanned') s
          else after_read chunk.0 chunk.1 next
    ]

unfoldable pub read_header : Bytes → Stream → Read Bytes
unfolding resync
read_header expected s = do
  (header, s') ← read_exact 24 s
  ite (bytes_discrete (take 4 header) expected) (ok (header, s'))
      (resync (suc (length s'.bytes)) expected header 0 s')

-- Bytes 16 to 19 of the header.
unfoldable pub payload_len : Bytes → ℕ
payload_len header = from_le_bytes (take 4 (drop 16 header))

module _ (N : MessageLib) where
  unfoldable pub decoded : Option N.Message → Stream → Read N.Message
  decoded none s = err encode s
  decoded (some m) s = ok (m, s)

  -- From the header on.
  unfoldable pub read_payload : Bytes → Stream → Read N.Message
  unfolding payload_len decoded
  read_payload header s =
      if ltb max_message_size (payload_len header)
      then err (message_too_large (payload_len header)) s
      else (do
        (payload, s') ← read_exact (payload_len header) s
        decoded (N.consensus_decode (header ++ payload)) s')

  unfoldable pub read_message : Bytes → Stream → Read N.Message
  unfolding read_header read_payload
  read_message magic s = do (header, s') ← read_header magic s; read_payload header s'

  -- The header of the frame of a message.
  unfoldable pub header_of : Bytes → N.Message → Bytes
  header_of magic m =
      magic ++ (N.command m ++ (to_le_bytes 4 (length (N.payload m)) ++ N.checksum (N.payload m)))

  -- What `write_message` has written on `out` when it succeeds.
  unfoldable pub write_message : Bytes → Bytes → N.Message → Bytes
  unfolding header_of
  write_message magic out m = out ++ (header_of magic m ++ N.payload m)
