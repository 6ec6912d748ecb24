-- ===== src/P2p/Stream.antt =====
-- The errors of crates/wolfe-p2p/src/error.rs, and a tokio byte stream as its functions read it.
use bitcoin_wolfe.Prelude.{
  ℕ, false, length-append, take-append, drop-append, ◌≤◌, ◌<◌, ◌≡◌, refl, List, [], ◌∷◌, ◌++◌, ltb,
  if◌then◌else◌, length, take, drop, min, max, arith,
}
use bitcoin_wolfe.Bytes.{Bytes}

-- `InvalidMessage` has a constructor for each reason; other texts and addresses are left out.
-- `unexpected_eof` is the I/O error of a stream that ends, `io` every other one.
pub data P2pError : Type 0 where
  connection : P2pError
  expected_version no_verack handshake_timed_out : P2pError
  message_too_large : ℕ → P2pError
  not_resynced : ℕ → P2pError
  misbehavior : ℕ → P2pError
  encode unexpected_eof io disconnected channel_closed dns_resolution : P2pError

-- The bytes that are still to come, and how many of them each further `read` gets at most: the
-- network decides that, so theorems hold for all `pieces`. Without an entry a read fills its buffer.
pub record Stream : Type 0 where
  pub bytes : Bytes
  pub pieces : List ℕ

-- A result, with the stream after it. `stuck` stands for fuel that runs out.
pub data Read {ℓ} (A : Type ℓ) : Type ℓ where
  ok : A × Stream → Read A
  err : P2pError → Stream → Read A
  stuck : Read A

infixl 5 ◌>>=◌
abbrev pub ◌>>=◌ {ℓ κ} : {A : Type ℓ} {B : Type κ} → Read A → (A × Stream → Read B) → Read B
ok r >>= f = f r
err e s >>= f = err e s
stuck >>= f = stuck

-- `read_exact` into a buffer of `n` bytes; at the end of the stream it has taken what there was.
unfoldable pub read_exact : ℕ → Stream → Read Bytes
read_exact n s =
    if ltb (length s.bytes) n
    then err unexpected_eof (record s { bytes = [] })
    else ok (take n s.bytes, record s { bytes = drop n s.bytes })

-- The size of the next piece: at least one byte, at most the buffer.
unfoldable pub piece : ℕ → List ℕ → ℕ
piece limit [] = limit
piece limit (p ∷ rest) = min limit (max 1 p)

-- `read` into a buffer of `limit` bytes; it gets none only at the end of the stream.
unfoldable pub read : ℕ → Stream → Bytes × Stream
unfolding piece
read limit s =
    let n = piece limit s.pieces in
    (take n s.bytes, record { bytes = drop n s.bytes; pieces = drop 1 s.pieces })

pub read_exact-append :
    (n : ℕ) (xs ys : Bytes) (pieces : List ℕ)
    → n ≡ length xs
    → read_exact n (record { bytes = xs ++ ys; pieces = pieces })
      ≡ ok (xs, record { bytes = ys; pieces = pieces })
unfolding read_exact
read_exact-append n xs ys pieces e =
    let enough : ltb (length (xs ++ ys)) (length xs) ≡ false =
      ground (arith, length-append xs ys) in
    rw (e, enough) (rw (take-append xs ys, drop-append xs ys) refl)

pub read_exact-short :
    (n : ℕ) (s : Stream)
    → length s.bytes < n
    → read_exact n s ≡ err unexpected_eof (record s { bytes = [] })
unfolding read_exact
read_exact-short n s short = ground arith

pub read_exact-enough :
    (n : ℕ) (s : Stream)
    → n ≤ length s.bytes
    → read_exact n s ≡ ok (take n s.bytes, record s { bytes = drop n s.bytes })
unfolding read_exact
read_exact-enough n s enough = ground arith
