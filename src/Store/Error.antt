-- ===== src/Store/Error.antt =====
-- crates/wolfe-store/src/error.rs, and the results of the store's functions. `panic` stands for a
-- Rust panic, which `copy_from_slice` raises on a length mismatch.
use bitcoin_wolfe.Prelude.{ℕ, ◌≡◌, ◌==◌, if◌then◌else◌, length, arith}
use bitcoin_wolfe.Bytes.{Bytes}

pub data StoreError : Type 0 where
  database storage table transaction commit : StoreError
  bitcoin_encode json : StoreError
  header_not_found : Bytes → StoreError
  header_not_found_at_height : ℕ → StoreError
  peer_not_found : Bytes → StoreError
  meta_key_not_found : Bytes → StoreError
  corruption : StoreError

pub data StoreResult {ℓ} (A : Type ℓ) : Type ℓ where
  ok : A → StoreResult A
  err : StoreError → StoreResult A
  panic : StoreResult A

infixl 5 ◌>>=◌
abbrev pub ◌>>=◌ {ℓ κ} :
    {A : Type ℓ} {B : Type κ} → StoreResult A → (A → StoreResult B) → StoreResult B
ok a >>= f = f a
err e >>= f = err e
panic >>= f = panic

-- `buf.copy_from_slice(val)` into a buffer of `n` bytes.
unfoldable pub copy_from_slice : ℕ → Bytes → StoreResult Bytes
copy_from_slice n val = if length val == n then ok val else panic

pub copy_from_slice-ok : (n : ℕ) (val : Bytes) → length val ≡ n → copy_from_slice n val ≡ ok val
unfolding copy_from_slice
copy_from_slice-ok n val h = ground arith
