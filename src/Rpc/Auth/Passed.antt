-- ===== src/Rpc/Auth/Passed.antt =====
-- Whom `auth_middleware` of crates/wolfe-rpc/src/server.rs lets through.
use bitcoin_wolfe.Prelude.{
  ℕ, ◌≡◌, ◌≢◌, ◌↔◌, ◌⊎◌, inl, inr, refl, sym, ap, ◌∙◌, true, false, Option, none, some, ◌++◌, arith,
  Option-cases, Bool-cases,
}
use bitcoin_wolfe.Bytes.{Bytes, str}
use bitcoin_wolfe.Nostr.{NostrLib, trim, verify_nip98}
use bitcoin_wolfe.Nostr.Authorized.{IsSigned, verify_nip98-IsSigned}
use bitcoin_wolfe.Rpc.Auth.{
  RpcConfig, NostrConfig, passed, nostr_scheme, expected_credentials, parse_keys, nip98_pubkeys,
  check_header, auth_middleware, layered,
}
use bitcoin_wolfe.Rpc.Auth.Header.{
  nostr≢basic, NostrHeader, BasicHeader, check_header-passed, credentials-some, credentials-none,
}

module _ (N : NostrLib) where
  -- The header carries an event that is signed for this request by a key that may.
  pub record ByNostr (config : NostrConfig) (now : ℕ) (url method : Bytes) (header : Option Bytes)
      : Type 0 where
    pub token : Bytes
    pub json : Bytes
    pub event : N.Event
    pub key : N.PublicKey
    pub on : config.nip98_auth ≡ true
    pub sent : header ≡ some (nostr_scheme ++ token)
    pub from_base64 : N.decode (trim token) ≡ some json
    pub utf8 : N.is_utf8 json ≡ true
    pub parsed : N.from_json json ≡ some event
    pub signed : IsSigned N now url method (parse_keys N config.allowed_pubkeys) event key

  -- The header is the user and the password, in base64.
  pub record ByPassword (config : RpcConfig) (header : Option Bytes) : Type 0 where
    pub name : Bytes
    pub secret : Bytes
    pub has_user : config.user ≡ some name
    pub has_password : config.password ≡ some secret
    pub sent : header ≡ some (str "Basic " ++ N.encode (name ++ str ":" ++ secret))

  -- No way to log in is configured.
  abbrev pub IsOpen : RpcConfig → NostrConfig → Type 0
  IsOpen rpc nostr = ((rpc.user ≡ none) ⊎ (rpc.password ≡ none)) × (nostr.nip98_auth ≡ false)

  IsOpen-cases : (rpc : RpcConfig) (nostr : NostrConfig) → IsOpen rpc nostr ⊎ ¬ IsOpen rpc nostr
  IsOpen-cases rpc nostr = elim (Bool-cases nostr.nip98_auth) [
    | inl on ↦ inr (λ o. absurd (ground (arith, sym on ∙ o.1)))
    | inr off ↦ elim (Option-cases rpc.user) [
      | inl e ↦ inl (inl e, off)
      | inr (name, eu) ↦ elim (Option-cases rpc.password) [
        | inl e ↦ inl (inr e, off)
        | inr (secret, ep) ↦ inr (λ o. elim o.0 [
          | inl e ↦ absurd (ground (arith, sym eu ∙ e))
          | inr e ↦ absurd (ground (arith, sym ep ∙ e))
        ])
      ]
    ]
  ]

  layered-open :
      (rpc : RpcConfig) (nostr : NostrConfig) (now : ℕ) (method uri : Bytes) (header : Option Bytes)
      → IsOpen rpc nostr
      → layered N rpc nostr now method uri header ≡ passed
  unfolding layered auth_middleware
  layered-open rpc nostr now method uri header (no_basic, off) =
      rw ((credentials-none N rpc.user rpc.password).1 no_basic, off) refl

  layered-closed :
      (rpc : RpcConfig) (nostr : NostrConfig) (now : ℕ) (method uri : Bytes) (header : Option Bytes)
      → ¬ IsOpen rpc nostr
      → layered N rpc nostr now method uri header
        ≡ check_header N now
            (expected_credentials N rpc.user rpc.password)
            nostr.nip98_auth
            (nip98_pubkeys N nostr)
            rpc.listen
            method
            uri
            header
  unfolding layered auth_middleware
  layered-closed rpc nostr now method uri header closed =
      elim (Option-cases (expected_credentials N rpc.user rpc.password)) [
        | inr (text, e) ↦ rw (e) refl
        | inl gone ↦ elim (Bool-cases nostr.nip98_auth) [
          | inl on ↦ rw (gone, on) refl
          | inr off ↦ absurd (closed ((credentials-none N rpc.user rpc.password).0 gone, off))
        ]
      ]

  keys-on :
      (nostr : NostrConfig)
      → nostr.nip98_auth ≡ true
      → nip98_pubkeys N nostr ≡ parse_keys N nostr.allowed_pubkeys
  unfolding nip98_pubkeys
  keys-on nostr on = rw (on) refl

  ByNostr-iff :
      (nostr : NostrConfig) (now : ℕ) (url method : Bytes) (header : Option Bytes)
      → NostrHeader N now nostr.nip98_auth (nip98_pubkeys N nostr) url method header
        ↔ ByNostr nostr now url method header
  ByNostr-iff nostr now url method header = (
    λ (token, key, on, sent, v).
        let v' = ap (verify_nip98 N now token url method) (sym (keys-on nostr on)) ∙ v in
        let (json, event, from_base64, utf8, parsed, signed) =
          (verify_nip98-IsSigned N now token url method (parse_keys N nostr.allowed_pubkeys) key).0
            v' in
        record {
          token = token;
          json = json;
          event = event;
          key = key;
          on = on;
          sent = sent;
          from_base64 = from_base64;
          utf8 = utf8;
          parsed = parsed;
          signed = signed;
        },
    λ b.
        let v =
          (verify_nip98-IsSigned N now b.token url method (parse_keys N nostr.allowed_pubkeys)
              b.key).1
            (b.json, b.event, b.from_base64, b.utf8, b.parsed, b.signed) in
        (
          b.token,
          b.key,
          b.on,
          b.sent,
          ap (verify_nip98 N now b.token url method) (keys-on nostr b.on) ∙ v,
        ),
  )

  ByPassword-iff :
      (rpc : RpcConfig) (header : Option Bytes)
      → BasicHeader (expected_credentials N rpc.user rpc.password) header ↔ ByPassword rpc header
  ByPassword-iff rpc header = (
    λ (text, sent, e).
        let (name, secret, eu, ep, same) = (credentials-some N rpc.user rpc.password text).0 e in
        record {
          name = name;
          secret = secret;
          has_user = eu;
          has_password = ep;
          sent = sent ∙ ap some (sym same);
        },
    λ b. (
      str "Basic " ++ N.encode (b.name ++ str ":" ++ b.secret),
      b.sent,
      (credentials-some N rpc.user rpc.password _).1
          (b.name, b.secret, b.has_user, b.has_password, refl),
    ),
  )

  -- A request gets through the middleware exactly when no way to log in is configured, or NIP-98 is
  -- enabled and the header is "Nostr " and an event that is signed for this URL, method and time, by
  -- one of those configured keys that parse or by any key where none does, or the header is "Basic "
  -- and the base64 of the configured user, a colon and the configured password.
  pub layered-passed :
      (rpc : RpcConfig) (nostr : NostrConfig) (now : ℕ) (method uri : Bytes) (header : Option Bytes)
      → (layered N rpc nostr now method uri header ≡ passed) ↔ (
          IsOpen rpc nostr
          ⊎ (ByNostr nostr now (str "http://" ++ rpc.listen ++ uri) method header
              ⊎ ByPassword rpc header))
  layered-passed rpc nostr now method uri header =
      let expected = expected_credentials N rpc.user rpc.password in
      let differs : (token : Bytes) → expected ≢ some (nostr_scheme ++ token) = λ token e.
        let (name, secret, eu, ep, same) = (credentials-some N rpc.user rpc.password _).0 e in
        nostr≢basic token (N.encode (name ++ str ":" ++ secret)) (sym same) in
      let (to, from) =
        check_header-passed N now expected nostr.nip98_auth (nip98_pubkeys N nostr) rpc.listen
          method uri header differs in
      let url = str "http://" ++ rpc.listen ++ uri in
      let (nostr_to, nostr_from) = ByNostr-iff nostr now url method header in
      let (basic_to, basic_from) = ByPassword-iff rpc header in
      elim (IsOpen-cases rpc nostr) [
        | inl none_set ↦
            (λ h. inl none_set, λ o. layered-open rpc nostr now method uri header none_set)
        | inr closed ↦
            let e = layered-closed rpc nostr now method uri header closed in
            (
              λ h. elim (to (sym e ∙ h)) [
                | inl n ↦ inr (inl (nostr_to n))
                | inr b ↦ inr (inr (basic_to b))
              ],
              λ o. elim o [
                | inl none_set ↦ absurd (closed none_set)
                | inr (inl n) ↦ e ∙ from (inl (nostr_from n))
                | inr (inr b) ↦ e ∙ from (inr (basic_from b))
              ],
            )
      ]
