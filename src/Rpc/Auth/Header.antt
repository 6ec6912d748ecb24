-- ===== src/Rpc/Auth/Header.antt =====
-- The `Authorization` header by its scheme, in `auth_middleware` of crates/wolfe-rpc/src/server.rs.
use mathlib.Core.Option.{some-injective}
use bitcoin_wolfe.Prelude.{
  ℕ, ◌≡◌, ◌≢◌, ◌↔◌, ◌⊎◌, inl, inr, refl, sym, ap, ◌∙◌, Bool, true, false, Option, none, some, List,
  ◌++◌, if_pos, if_neg, arith, Option-cases,
}
use bitcoin_wolfe.Bytes.{Bytes, bytes_discrete, str}
use bitcoin_wolfe.Nostr.{NostrLib, Verdict, verified, refused, verify_nip98}
use bitcoin_wolfe.Bytes.Prefix.{strip_prefix}
use bitcoin_wolfe.Bytes.Prefix.{strip_prefix-append, strip_prefix-some}
use bitcoin_wolfe.Rpc.Auth.{
  Answer, passed, unauthorized, nostr_scheme, check_basic, expected_credentials, by_verdict,
  try_nip98, check_header,
}

passed≢unauthorized : Answer.unauthorized ≢ passed
passed≢unauthorized e = ground (arith, e)

check_basic-passed :
    (expected : Option Bytes) (header : Bytes)
    → (check_basic expected header ≡ passed) ↔ (expected ≡ some header)
unfolding check_basic
check_basic-passed none header =
    (λ h. absurd (passed≢unauthorized h), λ h. absurd (ground (arith, h)))
check_basic-passed (some expected) header = elim (bytes_discrete header expected) [
  | yes e ↦
      (λ h. ap some (sym e), λ h. if_pos (bytes_discrete header expected) e passed unauthorized)
  | no e ↦ (
    λ h. absurd (
        passed≢unauthorized
          (sym (if_neg (bytes_discrete header expected) e passed unauthorized) ∙ h)),
    λ h. absurd (e (sym (some-injective _ _ h))),
  )
]

-- No scheme is the beginning of the other.
pub nostr≢basic : (token : Bytes) (text : Bytes) → nostr_scheme ++ token ≢ str "Basic " ++ text
nostr≢basic token text e = ground (arith, e)

-- A text that equals the expected one.
abbrev pub BasicHeader : Option Bytes → Option Bytes → Type 0
BasicHeader expected header = (text : Bytes) × (header ≡ some text) × (expected ≡ some text)

module _ (N : NostrLib) where
  by_verdict-passed :
      (v : Verdict N.PublicKey)
      → (by_verdict N v ≡ passed) ↔ ((key : N.PublicKey) × (v ≡ verified key))
  unfolding by_verdict
  by_verdict-passed (verified key) = (λ h. (key, refl), λ p. refl)
  by_verdict-passed (refused reason) =
      (λ h. absurd (passed≢unauthorized h), λ (key, e). absurd (ground (arith, e)))

  -- A NIP-98 event that `verify_nip98` takes.
  abbrev pub NostrHeader : ℕ → Bool → List N.PublicKey → Bytes → Bytes → Option Bytes → Type 0
  NostrHeader now on keys url method header =
      (token : Bytes) × (key : N.PublicKey) × (on ≡ true)
      × (header ≡ some (nostr_scheme ++ token))
      × (verify_nip98 N now token url method keys ≡ verified key)

  try_nip98-passed :
      (now : ℕ) (expected : Option Bytes) (on : Bool) (keys : List N.PublicKey)
      (listen method uri header : Bytes)
      → ((token : Bytes) → expected ≢ some (nostr_scheme ++ token))
      → (check_header N now expected on keys listen method uri (some header) ≡ passed) ↔ (
          NostrHeader now on keys (str "http://" ++ listen ++ uri) method (some header)
          ⊎ BasicHeader expected (some header))
  unfolding check_header try_nip98
  try_nip98-passed now expected false keys listen method uri header differs =
      let (to, from) = check_basic-passed expected header in
      (
        λ h. inr (header, refl, to h),
        λ o. elim o [
          | inl (token, key, off, same, v) ↦ absurd (ground (arith, off))
          | inr (text, same, e) ↦ from (e ∙ sym same)
        ],
      )
  try_nip98-passed now expected true keys listen method uri header differs =
      elim (Option-cases (strip_prefix nostr_scheme header)) [
        | inl without ↦
            let (to, from) = check_basic-passed expected header in
            (
              λ h. inr (header, refl, to (rw (without, try_nip98) at h)),
              λ o. elim o [
                | inl (token, key, on, same, rest) ↦
                    let there =
                      ap (strip_prefix nostr_scheme) (some-injective _ _ same)
                      ∙ strip_prefix-append nostr_scheme token in
                    absurd (ground (arith, sym without ∙ there))
                | inr (text, same, e) ↦ rw (without, try_nip98) (from (e ∙ sym same))
              ],
            )
        | inr (token, e) ↦
            let split = strip_prefix-some nostr_scheme header token e in
            let (to, from) =
              by_verdict-passed
                (verify_nip98 N now token (str "http://" ++ listen ++ uri) method keys) in
            (
              λ h.
                  let (key, v) = to (rw (e, try_nip98) at h) in
                  inl (token, key, refl, ap some split, v),
              λ o. elim o [
                | inl (token', key, on, same, v) ↦
                    let again =
                      ap (strip_prefix nostr_scheme) (some-injective _ _ same)
                      ∙ strip_prefix-append nostr_scheme token' in
                    let tokens : token' ≡ token = some-injective _ _ (sym again ∙ e) in
                    let v' : verify_nip98 N now token (str "http://" ++ listen ++ uri) method keys
                        ≡ verified key =
                      ap (λ t. verify_nip98 N now t (str "http://" ++ listen ++ uri) method keys)
                        (sym tokens)
                      ∙ v in
                    rw (e, try_nip98) (from (key, v'))
                | inr (text, same, there) ↦
                    absurd (differs token (there ∙ sym same ∙ ap some split))
              ],
            )
      ]

  pub check_header-passed :
      (now : ℕ) (expected : Option Bytes) (on : Bool) (keys : List N.PublicKey)
      (listen method uri : Bytes) (header : Option Bytes)
      → ((token : Bytes) → expected ≢ some (nostr_scheme ++ token))
      → (check_header N now expected on keys listen method uri header ≡ passed) ↔ (
          NostrHeader now on keys (str "http://" ++ listen ++ uri) method header
          ⊎ BasicHeader expected header)
  unfolding check_header
  check_header-passed now expected on keys listen method uri none differs = (
    λ h. absurd (passed≢unauthorized h),
    λ o. elim o [
      | inl (token, key, on', same, v) ↦ absurd (ground (arith, same))
      | inr (text, same, rest) ↦ absurd (ground (arith, same))
    ],
  )
  check_header-passed now expected on keys listen method uri (some header) differs =
      try_nip98-passed now expected on keys listen method uri header differs

  pub credentials-some :
      (user pass : Option Bytes) (text : Bytes)
      → (expected_credentials N user pass ≡ some text) ↔ (
          (name : Bytes) × (secret : Bytes) × (user ≡ some name)
          × (pass ≡ some secret)
          × (str "Basic " ++ N.encode (name ++ str ":" ++ secret) ≡ text))
  unfolding expected_credentials
  credentials-some (some name) (some secret) text = (
    λ h. (name, secret, refl, refl, some-injective _ _ h),
    λ (n, s, eu, ep, e).
        let same : str "Basic " ++ N.encode (name ++ str ":" ++ secret)
            ≡ str "Basic " ++ N.encode (n ++ str ":" ++ s) =
          cc (some-injective _ _ eu, some-injective _ _ ep) in
        ap some (same ∙ e),
  )
  credentials-some (some name) none text =
      (λ h. absurd (ground (arith, h)), λ (n, s, eu, ep, e). absurd (ground (arith, ep)))
  credentials-some none pass text =
      (λ h. absurd (ground (arith, h)), λ (n, s, eu, ep, e). absurd (ground (arith, eu)))

  pub credentials-none :
      (user pass : Option Bytes)
      → (expected_credentials N user pass ≡ none) ↔ ((user ≡ none) ⊎ (pass ≡ none))
  unfolding expected_credentials
  credentials-none (some name) (some secret) = (
    λ h. absurd (ground (arith, h)),
    λ o. elim o [ inl e ↦ absurd (ground (arith, e)) | inr e ↦ absurd (ground (arith, e)) ],
  )
  credentials-none (some name) none = (λ h. inr refl, λ o. refl)
  credentials-none none pass = (λ h. inl refl, λ o. refl)
