-- ===== src/Rpc/L402/Genuine.antt =====
-- Which tokens `verify_token` of crates/wolfe-rpc/src/l402.rs takes.
use bitcoin_wolfe.Prelude.{
  ℕ, zero, suc, ◌≤◌, ◌<◌, ◌^◌, ◌≡◌, ◌↔◌, refl, sym, ap, ◌∙◌, inl, inr, Bool, true, false,
  Option-cases, some, [], ◌∷◌, ◌++◌, if_pos, if_neg, leb, leb→le, ◌==◌, ==_iff, length,
  length-append, length-take, length-drop, take_all, take, drop, take-append, drop-append,
  take-append_drop, drop-drop, arith,
}
use bitcoin_wolfe.Bytes.{
  Bytes, AreBytes, bytes_discrete, to_be_bytes, from_be_bytes, length-to_be, from_be-to_be,
  to_be-from_be, from_be_bytes-lt,
}
use bitcoin_wolfe.Rpc.L402.{
  CryptoLib, TokenError, Result, ok, err, require, first, token_version, token_len, invalid_length,
  unsupported_version, expired, invalid_signature, invalid_base64, hash_of, expiry_of, hmac_of,
  check_hmac, compute_hmac, token_bytes, verify_bytes, verify_token,
}

module _ (C : CryptoLib) where
  -- The text encodes a token of this secret and payment hash that has not expired.
  pub record IsGenuine (now : ℕ) (secret text payment_hash : Bytes) : Type 0 where
    pub expiry : ℕ
    pub fits : expiry < 2 ^ 64
    pub long : length payment_hash ≡ 32
    pub fresh : now ≤ expiry
    pub bytes : C.decode text ≡ some (token_bytes C secret payment_hash expiry)

  require-ok :
      {A : Type 0} (b : Bool) (e : TokenError) (k : Result A) {a : A}
      → require b e k ≡ ok a
      → (b ≡ true) × (k ≡ ok a)
  require-ok true e k h = (refl, h)
  require-ok false e k h = absurd (ground (arith, h))

  -- The parts of 73 bytes that begin with the version.
  split_token :
      (bytes : Bytes)
      → length bytes ≡ 73
      → first bytes ≡ 1
      → bytes ≡ 1 ∷ (take 32 (drop 1 bytes) ++ (take 8 (drop 33 bytes) ++ take 32 (drop 41 bytes)))
  unfolding first
  split_token [] l f = absurd (omega (arith, l))
  split_token (b ∷ rest) l f =
      let end : take 32 (drop 40 rest) ≡ drop 40 rest =
        take_all 32 (drop 40 rest) (omega (arith, l, length-drop 40 rest)) in
      let middle : take 8 (drop 32 rest) ++ drop 40 rest ≡ drop 32 rest =
        ap (λ d. take 8 (drop 32 rest) ++ d) (sym (drop-drop 32 8 rest))
        ∙ take-append_drop 8 (drop 32 rest) in
      let whole : take 32 rest ++ (take 8 (drop 32 rest) ++ take 32 (drop 40 rest)) ≡ rest =
        ap (λ d. take 32 rest ++ (take 8 (drop 32 rest) ++ d)) end
        ∙ ap (λ d. take 32 rest ++ d) middle
        ∙ take-append_drop 32 rest in
      cc (whole, f)

  check_hmac-ok :
      (secret hash tag payment_hash : Bytes) (expiry : ℕ)
      → check_hmac C secret hash expiry tag ≡ ok payment_hash
      → (compute_hmac C secret hash expiry ≡ tag) × (hash ≡ payment_hash)
  unfolding check_hmac
  check_hmac-ok secret hash tag payment_hash expiry h =
      elim (bytes_discrete (compute_hmac C secret hash expiry) tag) [
        | yes same ↦
            let e : Result.ok hash ≡ ok payment_hash =
              sym (
                if_pos (bytes_discrete (compute_hmac C secret hash expiry) tag) same (ok hash)
                  (err invalid_signature))
              ∙ h in
            (same, ground (arith, e))
        | no other ↦
            let e : Result.err invalid_signature ≡ ok payment_hash =
              sym (
                if_neg (bytes_discrete (compute_hmac C secret hash expiry) tag) other (ok hash)
                  (err invalid_signature))
              ∙ h in
            absurd (ground (arith, e))
      ]

  AreBytes-take : (n : ℕ) (bytes : Bytes) → AreBytes bytes → AreBytes (take n bytes)
  AreBytes-take zero bytes a = tt
  AreBytes-take (suc n) [] a = tt
  AreBytes-take (suc n) (b ∷ bytes) (a, as') = (a, AreBytes-take n bytes as')

  AreBytes-drop : (n : ℕ) (bytes : Bytes) → AreBytes bytes → AreBytes (drop n bytes)
  AreBytes-drop zero bytes a = a
  AreBytes-drop (suc n) [] a = tt
  AreBytes-drop (suc n) (b ∷ bytes) (a, as') = AreBytes-drop n bytes as'

  -- The expiry of a token, from its eight bytes and back.
  expiry_bytes :
      (bytes : Bytes)
      → length bytes ≡ 73
      → AreBytes bytes
      → (to_be_bytes 8 (expiry_of bytes) ≡ take 8 (drop 33 bytes)) × (expiry_of bytes < 2 ^ 64)
  expiry_bytes bytes long a =
      let time = take 8 (drop 33 bytes) in
      let eight : length time ≡ 8 =
        length-take 8 (drop 33 bytes) (omega (arith, long, length-drop 33 bytes)) in
      let are : AreBytes time = AreBytes-take 8 (drop 33 bytes) (AreBytes-drop 33 bytes a) in
      (
        ap (λ n. to_be_bytes n (expiry_of bytes)) (sym eight) ∙ to_be-from_be time are,
        omega (arith, from_be_bytes-lt time are, ap (λ n. 256 ^ n) eight),
      )

  verify_bytes-IsGenuine :
      (now : ℕ) (secret text bytes payment_hash : Bytes)
      → C.decode text ≡ some bytes
      → verify_bytes C now secret bytes ≡ ok payment_hash
      → IsGenuine now secret text payment_hash
  unfolding verify_bytes token_bytes
  verify_bytes-IsGenuine now secret text bytes payment_hash decoded h =
      let check = check_hmac C secret (hash_of bytes) (expiry_of bytes) (hmac_of bytes) in
      let in_time = require (leb now (expiry_of bytes)) expired check in
      let (e₁, r₁) =
        require-ok (length bytes == token_len) invalid_length
          (require (first bytes == token_version) unsupported_version in_time) h in
      let (e₂, r₂) = require-ok (first bytes == token_version) unsupported_version in_time r₁ in
      let (e₃, r₃) = require-ok (leb now (expiry_of bytes)) expired check r₂ in
      let (same, hash) =
        check_hmac-ok secret (hash_of bytes) (hmac_of bytes) payment_hash (expiry_of bytes) r₃ in
      let long : length bytes ≡ 73 = (==_iff _ _).0 e₁ in
      let split = split_token bytes long ((==_iff _ _).0 e₂) in
      let (time, fits) = expiry_bytes bytes long (C.decode-AreBytes text bytes decoded) in
      record {
        expiry = expiry_of bytes;
        fits = fits;
        long =
            ap length (sym hash)
            ∙ length-take 32 (drop 1 bytes) (omega (arith, long, length-drop 1 bytes));
        fresh = leb→le _ _ e₃;
        bytes =
            decoded
            ∙ ap some (
                split
                ∙ ap (λ t. 1 ∷ (hash_of bytes ++ (t ++ hmac_of bytes))) (sym time)
                ∙ ap (λ t. 1 ∷ (hash_of bytes ++ (to_be_bytes 8 (expiry_of bytes) ++ t))) (sym same)
                ∙ ap (λ p. token_bytes C secret p (expiry_of bytes)) hash);
      }

  IsGenuine-verify_bytes :
      (now : ℕ) (secret payment_hash : Bytes) (expiry : ℕ)
      → expiry < 2 ^ 64
      → length payment_hash ≡ 32
      → now ≤ expiry
      → verify_bytes C now secret (token_bytes C secret payment_hash expiry) ≡ ok payment_hash
  unfolding verify_bytes token_bytes check_hmac first
  IsGenuine-verify_bytes now secret payment_hash expiry fits long fresh =
      let time = to_be_bytes 8 expiry in
      let tag = compute_hmac C secret payment_hash expiry in
      let n₁ = length-to_be 8 expiry in
      let n₂ : length tag ≡ 32 =
        (unfold compute_hmac in C.length-hmac secret (payment_hash ++ time)) in
      let all : length (1 ∷ (payment_hash ++ (time ++ tag))) == token_len ≡ true =
        ground
          (arith, length-append payment_hash (time ++ tag), length-append time tag, n₁, n₂, long) in
      let hash : take 32 (payment_hash ++ (time ++ tag)) ≡ payment_hash =
        ap (λ n. take n (payment_hash ++ (time ++ tag))) (sym long)
        ∙ take-append payment_hash (time ++ tag) in
      let rest : drop 32 (payment_hash ++ (time ++ tag)) ≡ time ++ tag =
        ap (λ n. drop n (payment_hash ++ (time ++ tag))) (sym long)
        ∙ drop-append payment_hash (time ++ tag) in
      let clock : from_be_bytes (take 8 (drop 32 (payment_hash ++ (time ++ tag)))) ≡ expiry =
        ap (λ b. from_be_bytes (take 8 b)) rest
        ∙ ap (λ n. from_be_bytes (take n (time ++ tag))) (sym n₁)
        ∙ ap from_be_bytes (take-append time tag)
        ∙ from_be-to_be 8 expiry (omega (arith, fits)) in
      let end : take 32 (drop 40 (payment_hash ++ (time ++ tag))) ≡ tag =
        ap (take 32) (
          sym (drop-drop 32 8 (payment_hash ++ (time ++ tag)))
          ∙ ap (drop 8) rest
          ∙ ap (λ n. drop n (time ++ tag)) (sym n₁)
          ∙ drop-append time tag)
        ∙ take_all 32 tag (omega (arith, n₂)) in
      let valid : leb now expiry ≡ true = ground (arith, fresh) in
      rw (all) (
        rw (clock) (
          rw (valid) (
            rw (hash) (
              rw (end)
                (if_pos (bytes_discrete tag tag) refl (ok payment_hash) (err invalid_signature))))))

  -- `verify_token` takes a text, and returns a payment hash, exactly when the text is the base64 of a
  -- token that was made with this secret for this payment hash, of 32 bytes, and an expiry below 2^64
  -- that is not past.
  pub verify_token-IsGenuine :
      (now : ℕ) (secret text payment_hash : Bytes)
      → (verify_token C now secret text ≡ ok payment_hash) ↔ IsGenuine now secret text payment_hash
  unfolding verify_token
  verify_token-IsGenuine now secret text payment_hash = (
    λ h. elim (Option-cases (C.decode text)) [
      | inl e ↦
          let gone : Result.err invalid_base64 ≡ ok payment_hash = rw (e) at h in
          absurd (ground (arith, gone))
      | inr (bytes, e) ↦ verify_bytes-IsGenuine now secret text bytes payment_hash e (rw (e) at h)
    ],
    λ g.
        rw (g.bytes)
          (IsGenuine-verify_bytes now secret payment_hash g.expiry g.fits g.long g.fresh),
  )
