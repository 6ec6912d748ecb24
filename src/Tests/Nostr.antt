-- ===== src/Tests/Nostr.antt =====
-- Requests that are signed by a Nostr event, with a concrete event format and keys.
use bitcoin_wolfe.Prelude.{
  ℕ, ◌≡◌, ◌↔◌, ◌⊎◌, refl, true, Option, none, some, [], ◌∷◌, ◌++◌, ℕ_discrete,
}
use bitcoin_wolfe.Bytes.{Bytes, bytes_discrete, str}
use bitcoin_wolfe.Nostr.{
  NostrLib, verified, refused, too_old, trim, eq_ignore_ascii_case, verify_nip98,
}
use bitcoin_wolfe.Nostr.Authorized.{IsSigned, verify_nip98-IsSigned}
use bitcoin_wolfe.Bytes.Prefix.{strip_prefix}
use bitcoin_wolfe.Rpc.Auth.{RpcConfig, NostrConfig, passed, unauthorized, nostr_scheme, layered}
use bitcoin_wolfe.Rpc.Auth.Passed.{IsOpen, ByNostr, ByPassword, layered-passed}

abbrev HttpAuth : Type 0
HttpAuth = ℕ × Bytes

-- The first byte of an event is its time, and the others are its URL.
abbrev parse_event : Bytes → Option HttpAuth
parse_event [] = none
parse_event (time ∷ url) = some (time, url)

abbrev parse_first : Bytes → Option ℕ
parse_first [] = none
parse_first (key ∷ more) = some key

abbrev sample_nostr : NostrLib
sample_nostr = record {
  Event = HttpAuth;
  PublicKey = ℕ;
  key_discrete = ℕ_discrete;
  encode = λ b. b;
  decode = some;
  is_utf8 = λ b. true;
  from_json = parse_event;
  verify = λ e. true;
  kind = λ e. 27235;
  created_at = λ e. e.0;
  tags = λ e.
      (str "u" ∷ str "http://other" ∷ [])
      ∷ (str "method" ∷ str "post" ∷ [])
      ∷ (str "u" ∷ e.1 ∷ [])
      ∷ [];
  pubkey = λ e. 7;
  parse_key = parse_first;
}

abbrev at : Bytes
at = str "http://a:8332/"

verify_nip98-IsSigned_example :
    (verify_nip98 sample_nostr 150 (100 ∷ at) at (str "POST") (7 ∷ []) ≡ verified 7) ↔ (
      (json : Bytes) × (event : HttpAuth) × (some (trim (100 ∷ at)) ≡ some json)
      × (true ≡ true)
      × (parse_event json ≡ some event)
      × IsSigned sample_nostr 150 at (str "POST") (7 ∷ []) event 7)
verify_nip98-IsSigned_example =
    verify_nip98-IsSigned sample_nostr 150 (100 ∷ at) at (str "POST") (7 ∷ []) 7

taken : verify_nip98 sample_nostr 150 (100 ∷ at) at (str "POST") (7 ∷ []) ≡ verified 7
unfolding verify_nip98 bytes_discrete ℕ_discrete eq_ignore_ascii_case
taken = refl

late : verify_nip98 sample_nostr 161 (100 ∷ at) at (str "POST") (7 ∷ []) ≡ refused too_old
unfolding verify_nip98
late = refl

abbrev rpc_config : RpcConfig
rpc_config = record {
  listen = str "a:8332";
  user = some (str "bob");
  password = some (str "secret");
}

abbrev nostr_config : NostrConfig
nostr_config = record { nip98_auth = true; allowed_pubkeys = [] ∷ (7 ∷ []) ∷ [] }

abbrev login : Option Bytes
login = some (nostr_scheme ++ 100 ∷ at)

layered-passed_example :
    (layered sample_nostr rpc_config nostr_config 150 (str "POST") (str "/") login ≡ passed) ↔ (
      IsOpen sample_nostr rpc_config nostr_config
      ⊎ (ByNostr sample_nostr nostr_config 150 at (str "POST") login
          ⊎ ByPassword sample_nostr rpc_config login))
layered-passed_example =
    layered-passed sample_nostr rpc_config nostr_config 150 (str "POST") (str "/") login

let_in : layered sample_nostr rpc_config nostr_config 150 (str "POST") (str "/") login ≡ passed
unfolding layered verify_nip98 strip_prefix bytes_discrete ℕ_discrete eq_ignore_ascii_case
let_in = refl

let_in_by_password :
    layered sample_nostr rpc_config nostr_config 150
      (str "POST")
      (str "/")
      (some (str "Basic bob:secret"))
    ≡ passed
unfolding layered strip_prefix bytes_discrete ℕ_discrete
let_in_by_password = refl

kept_out :
    layered sample_nostr rpc_config nostr_config 150
      (str "POST")
      (str "/")
      (some (str "Basic bob:wrong"))
    ≡ unauthorized
unfolding layered strip_prefix bytes_discrete ℕ_discrete
kept_out = refl

-- The one key that is listed does not parse_event: another key gets in.
abbrev unreadable : NostrConfig
unreadable = record { nip98_auth = true; allowed_pubkeys = [] ∷ [] }

let_in_by_any_key :
    layered sample_nostr rpc_config unreadable 150 (str "POST") (str "/") login ≡ passed
unfolding layered verify_nip98 strip_prefix bytes_discrete ℕ_discrete eq_ignore_ascii_case
let_in_by_any_key = refl
