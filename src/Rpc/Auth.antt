-- ===== src/Rpc/Auth.antt =====
-- `auth_middleware` of crates/wolfe-rpc/src/server.rs, and what `start` prepares for it from the
-- configuration. The route behind the middleware and the log are left out.
pub mod Header
pub mod Passed
use bitcoin_wolfe.Prelude.{
  ℕ, Bool, true, false, ◌&&◌, not, Option, none, some, List, [], ◌∷◌, ◌++◌, ite, if◌then◌else◌,
}
use bitcoin_wolfe.Bytes.{Bytes, bytes_discrete, str}
use bitcoin_wolfe.Nostr.{NostrLib, Verdict, verified, refused, verify_nip98}
use bitcoin_wolfe.Bytes.Prefix.{strip_prefix}

-- The settings of crates/wolfe-types/src/config.rs that are read.
pub record RpcConfig : Type 0 where
  pub listen : Bytes
  pub user : Option Bytes
  pub password : Option Bytes

pub record NostrConfig : Type 0 where
  pub nip98_auth : Bool
  pub allowed_pubkeys : List Bytes

-- `passed` stands for `next.run(req)`, `unauthorized` for `unauthorized_response()`.
pub data Answer : Type 0 where
  passed unauthorized : Answer

abbrev pub is_none : {A : Type 0} → Option A → Bool
is_none none = true
is_none (some a) = false

abbrev pub nostr_scheme : Bytes
nostr_scheme = str "Nostr "

-- `header == expected`, where there is one.
unfoldable pub check_basic : Option Bytes → Bytes → Answer
check_basic none header = unauthorized
check_basic (some expected) header = ite (bytes_discrete header expected) passed unauthorized

module _ (N : NostrLib) where
  unfoldable pub expected_credentials : Option Bytes → Option Bytes → Option Bytes
  expected_credentials (some user) (some pass) =
      some (str "Basic " ++ N.encode (user ++ str ":" ++ pass))
  expected_credentials user pass = none

  -- `filter_map`: a key that does not parse is left out.
  unfoldable pub parse_keys : List Bytes → List N.PublicKey
  parse_keys [] = []
  parse_keys (pk ∷ rest) = elim (N.parse_key pk) [
    | none ↦ parse_keys rest
    | some key ↦ key ∷ parse_keys rest
  ]

  unfoldable pub nip98_pubkeys : NostrConfig → List N.PublicKey
  unfolding parse_keys
  nip98_pubkeys config = if config.nip98_auth then parse_keys config.allowed_pubkeys else []

  unfoldable pub by_verdict : Verdict N.PublicKey → Answer
  by_verdict (verified key) = passed
  by_verdict (refused reason) = unauthorized

  -- A header of which `strip_prefix "Nostr "` leaves this, where NIP-98 is enabled.
  unfoldable pub try_nip98 :
      ℕ → Option Bytes → List N.PublicKey → Bytes → Bytes → Bytes → Bytes → Option Bytes → Answer
  unfolding by_verdict check_basic
  try_nip98 now expected keys listen method uri header none = check_basic expected header
  try_nip98 now expected keys listen method uri header (some token) =
      by_verdict (verify_nip98 N now token (str "http://" ++ listen ++ uri) method keys)

  -- The `Authorization` header as a text, where there is one.
  unfoldable pub check_header :
      ℕ → Option Bytes → Bool → List N.PublicKey → Bytes → Bytes → Bytes → Option Bytes → Answer
  unfolding try_nip98
  check_header now expected nip98_enabled keys listen method uri none = unauthorized
  check_header now expected nip98_enabled keys listen method uri (some header) =
      try_nip98 now expected keys listen method uri header
        (if nip98_enabled then strip_prefix nostr_scheme header else none)

  unfoldable pub auth_middleware :
      ℕ → Option Bytes → Bool → List N.PublicKey → Bytes → Bytes → Bytes → Option Bytes → Answer
  unfolding check_header
  auth_middleware now expected nip98_enabled keys listen method uri header =
      if is_none expected && not nip98_enabled
      then passed
      else check_header now expected nip98_enabled keys listen method uri header

  -- The middleware as `start` layers it over the routes.
  unfoldable pub layered : RpcConfig → NostrConfig → ℕ → Bytes → Bytes → Option Bytes → Answer
  unfolding auth_middleware expected_credentials nip98_pubkeys
  layered rpc nostr now method uri header =
      auth_middleware now (expected_credentials rpc.user rpc.password) nostr.nip98_auth
        (nip98_pubkeys nostr) rpc.listen method uri header
