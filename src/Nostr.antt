-- ===== src/Nostr.antt =====
-- crates/wolfe-nostr/src/nip98.rs: HTTP requests that are signed by a Nostr event. Texts are their
-- bytes; time is in seconds and an argument.
pub mod Tags
pub mod Authorized
use mathlib.Core.List.{reverse}
use bitcoin_wolfe.Prelude.{
  ℕ, ◌+◌, ◌-◌, ◌≡◌, Bool, true, false, ◌&&◌, ◌||◌, not, Option, none, some, List, [], ◌∷◌, ite, leb,
  ◌==◌, map, if◌then◌else◌,
}
use bitcoin_wolfe.Bytes.{Bytes, bytes_discrete, str}

-- The `nostr` crate, base64, and the test of UTF-8. `verify` is the check of the id and the signature
-- of an event.
pub record NostrLib : Type 1 where
  pub Event : Type 0
  pub PublicKey : Type 0
  pub key_discrete : Discrete PublicKey
  pub encode : Bytes → Bytes
  pub decode : Bytes → Option Bytes
  pub is_utf8 : Bytes → Bool
  pub from_json : Bytes → Option Event
  pub verify : Event → Bool
  pub kind : Event → ℕ
  pub created_at : Event → ℕ
  pub tags : Event → List (List Bytes)
  pub pubkey : Event → PublicKey
  pub parse_key : Bytes → Option PublicKey

-- `NostrError::Nip98` has a constructor for each reason.
pub data Nip98Error : Type 0 where
  invalid_base64 invalid_utf8 invalid_json invalid_signature wrong_kind too_old url_mismatch
        missing_u method_mismatch missing_method not_allowed :
      Nip98Error

pub data Verdict (A : Type 0) : Type 0 where
  verified : A → Verdict A
  refused : Nip98Error → Verdict A

abbrev pub max_auth_age_secs : ℕ
max_auth_age_secs = 60

abbrev pub nip98_kind : ℕ
nip98_kind = 27235

-- `trim` of a header value, which is ASCII.
abbrev pub is_space : ℕ → Bool
is_space c = (leb 9 c && leb c 13) || (c == 32)

unfoldable pub trim_start : Bytes → Bytes
trim_start [] = []
trim_start (c ∷ cs) = let rest = trim_start cs in if is_space c then rest else c ∷ cs

unfoldable pub trim : Bytes → Bytes
unfolding trim_start
trim text = reverse (trim_start (reverse (trim_start text)))

abbrev pub to_ascii_lowercase : ℕ → ℕ
to_ascii_lowercase c = if leb 65 c && leb c 90 then c + 32 else c

unfoldable pub eq_ignore_ascii_case : Bytes → Bytes → Bool
eq_ignore_ascii_case a b =
    ite (bytes_discrete (map to_ascii_lowercase a) (map to_ascii_lowercase b)) true false

unfoldable pub drift : ℕ → ℕ → ℕ
drift now created = if leb created now then now - created else created - now

-- The loop over the tags, with the values of `u` and `method` so far.
unfoldable pub tag_loop :
    Option Bytes → Option Bytes → List (List Bytes) → Option Bytes × Option Bytes
tag_loop url_value method_value [] = (url_value, method_value)
tag_loop url_value method_value ((name ∷ value ∷ more) ∷ rest) =
    tag_loop (ite (bytes_discrete name (str "u")) (some value) url_value)
      (ite (bytes_discrete name (str "u")) method_value
        (ite (bytes_discrete name (str "method")) (some value) method_value))
      rest
tag_loop url_value method_value (_ ∷ rest) = tag_loop url_value method_value rest

-- `if !test { return Err(reason) }`, and what follows.
abbrev pub ensure : {A : Type 0} → Bool → Nip98Error → Verdict A → Verdict A
ensure true reason next = next
ensure false reason next = refused reason

module _ (N : NostrLib) where
  unfoldable pub contains : List N.PublicKey → N.PublicKey → Bool
  contains [] key = false
  contains (k ∷ keys) key = ite (N.key_discrete k key) true (contains keys key)

  unfoldable pub is_allowed : List N.PublicKey → N.PublicKey → Bool
  unfolding contains
  is_allowed [] key = true
  is_allowed (k ∷ keys) key = contains (k ∷ keys) key

  unfoldable pub check_url : {A : Type 0} → Bytes → Option Bytes → Verdict A → Verdict A
  check_url url none next = refused missing_u
  check_url url (some u) next = ite (bytes_discrete u url) next (refused url_mismatch)

  unfoldable pub check_method : {A : Type 0} → Bytes → Option Bytes → Verdict A → Verdict A
  check_method method none next = refused missing_method
  check_method method (some m) next = ensure (eq_ignore_ascii_case m method) method_mismatch next

  -- The checks on a parsed event.
  unfoldable pub check_event : ℕ → Bytes → Bytes → List N.PublicKey → N.Event → Verdict N.PublicKey
  unfolding drift tag_loop check_url check_method is_allowed
  check_event now url method allowed event =
      let values = tag_loop none none (N.tags event) in
      ensure (N.verify event) invalid_signature (
        ensure (N.kind event == nip98_kind) wrong_kind (
          ensure (leb (drift now (N.created_at event)) max_auth_age_secs) too_old (
            check_url url values.0 (
              check_method method values.1 (
                ensure (is_allowed allowed (N.pubkey event)) not_allowed
                  (verified (N.pubkey event)))))))

  unfoldable pub check_parsed :
      ℕ → Bytes → Bytes → List N.PublicKey → Option N.Event → Verdict N.PublicKey
  unfolding check_event
  check_parsed now url method allowed none = refused invalid_json
  check_parsed now url method allowed (some event) = check_event now url method allowed event

  unfoldable pub check_decoded :
      ℕ → Bytes → Bytes → List N.PublicKey → Option Bytes → Verdict N.PublicKey
  unfolding check_parsed
  check_decoded now url method allowed none = refused invalid_base64
  check_decoded now url method allowed (some json) =
      ensure (N.is_utf8 json) invalid_utf8 (check_parsed now url method allowed (N.from_json json))

  unfoldable pub verify_nip98 : ℕ → Bytes → Bytes → Bytes → List N.PublicKey → Verdict N.PublicKey
  unfolding trim check_decoded
  verify_nip98 now auth_value url method allowed =
      check_decoded now url method allowed (N.decode (trim auth_value))
