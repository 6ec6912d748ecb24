-- ===== src/Rpc/L402.antt =====
-- crates/wolfe-rpc/src/l402.rs: tokens that are bound to Lightning payments, and the middleware that
-- asks for them. Time is in seconds and an argument.
pub mod Genuine
pub mod Gate
pub mod Paid
pub mod Challenge
use bitcoin_wolfe.Prelude.{
  ℕ, ◌+◌, ◌*◌, ◌%◌, ◌^◌, ◌≡◌, Bool, true, false, not, Option, none, some, List, [], ◌∷◌, ◌++◌, ite,
  leb, ◌==◌, if◌then◌else◌, length, take, drop,
}
use bitcoin_wolfe.Bytes.{Bytes, AreBytes, bytes_discrete, str, to_be_bytes, from_be_bytes}
use bitcoin_wolfe.Map.{MapOps}

-- HMAC-SHA256 with its key and its message, base64 with padding, and the payment hash of a BOLT11
-- invoice where it parses. What base64 encodes it decodes, and what it decodes are bytes.
pub record CryptoLib : Type 0 where
  pub hmac_sha256 : Bytes → Bytes → Bytes
  pub encode : Bytes → Bytes
  pub decode : Bytes → Option Bytes
  pub payment_hash : Bytes → Option Bytes
  pub length-hmac : (key message : Bytes) → length (hmac_sha256 key message) ≡ 32
  pub decode-encode : (bytes : Bytes) → AreBytes bytes → decode (encode bytes) ≡ some bytes
  pub decode-AreBytes : (text bytes : Bytes) → decode text ≡ some bytes → AreBytes bytes
  pub hmac-AreBytes : (key message : Bytes) → AreBytes (hmac_sha256 key message)
  pub length-payment_hash : (text hash : Bytes) → payment_hash text ≡ some hash → length hash ≡ 32
  pub payment_hash-AreBytes : (text hash : Bytes) → payment_hash text ≡ some hash → AreBytes hash

pub data TokenError : Type 0 where
  invalid_base64 invalid_length unsupported_version expired invalid_signature : TokenError

-- What a check that may refuse a token returns.
pub data Result (A : Type 0) : Type 0 where
  ok : A → Result A
  err : TokenError → Result A

-- `if !test { return Err(reason) }`, and what comes after it.
abbrev pub require : {A : Type 0} → Bool → TokenError → Result A → Result A
require false reason rest = err reason
require true reason rest = rest

abbrev pub token_version : ℕ
token_version = 1

abbrev pub token_len : ℕ
token_len = 73

-- `bytes[0]`
unfoldable pub first : Bytes → ℕ
first [] = 0
first (b ∷ bs) = b

-- The parts of a token: bytes 1 to 32, 33 to 40, and 41 to 72.
abbrev pub hash_of : Bytes → Bytes
hash_of bytes = take 32 (drop 1 bytes)

abbrev pub expiry_of : Bytes → ℕ
expiry_of bytes = from_be_bytes (take 8 (drop 33 bytes))

abbrev pub hmac_of : Bytes → Bytes
hmac_of bytes = take 32 (drop 41 bytes)

module _ (C : CryptoLib) where
  unfoldable pub compute_hmac : Bytes → Bytes → ℕ → Bytes
  compute_hmac secret payment_hash expiry =
      C.hmac_sha256 secret (payment_hash ++ to_be_bytes 8 expiry)

  -- The bytes of a token.
  unfoldable pub token_bytes : Bytes → Bytes → ℕ → Bytes
  unfolding compute_hmac
  token_bytes secret payment_hash expiry =
      token_version
      ∷ (payment_hash ++ (to_be_bytes 8 expiry ++ compute_hmac secret payment_hash expiry))

  unfoldable pub create_token : Bytes → Bytes → ℕ → Bytes
  unfolding token_bytes
  create_token secret payment_hash expiry = C.encode (token_bytes secret payment_hash expiry)

  -- The last check.
  unfoldable pub check_hmac : Bytes → Bytes → ℕ → Bytes → Result Bytes
  unfolding compute_hmac
  check_hmac secret payment_hash expiry expected_hmac =
      ite (bytes_discrete (compute_hmac secret payment_hash expiry) expected_hmac) (ok payment_hash)
        (err invalid_signature)

  -- The checks on the decoded bytes.
  unfoldable pub verify_bytes : ℕ → Bytes → Bytes → Result Bytes
  unfolding first check_hmac
  verify_bytes now secret bytes = require (length bytes == token_len) invalid_length (
      require (first bytes == token_version) unsupported_version (
        require (leb now (expiry_of bytes)) expired
          (check_hmac secret (hash_of bytes) (expiry_of bytes) (hmac_of bytes))))

  unfoldable pub verify_decoded : ℕ → Bytes → Option Bytes → Result Bytes
  unfolding verify_bytes
  verify_decoded now secret none = err invalid_base64
  verify_decoded now secret (some bytes) = verify_bytes now secret bytes

  unfoldable pub verify_token : ℕ → Bytes → Bytes → Result Bytes
  unfolding verify_decoded
  verify_token now secret token_b64 = verify_decoded now secret (C.decode token_b64)

  unfoldable pub derive_l402_secret : Bytes → Bytes
  derive_l402_secret ln_seed = C.hmac_sha256 ln_seed (str "l402-token-key")
