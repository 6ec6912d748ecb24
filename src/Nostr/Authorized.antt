-- ===== src/Nostr/Authorized.antt =====
-- Which requests `verify_nip98` of crates/wolfe-nostr/src/nip98.rs takes.
use mathlib.Core.Option.{some-injective}
use bitcoin_wolfe.Prelude.{
  ℕ, In, ◌+◌, ◌≤◌, ◌≡◌, ◌↔◌, ◌⊎◌, inl, inr, refl, sym, ap, ◌∙◌, Bool, true, false, Option, none,
  some, List, [], ◌∷◌, if_pos, if_neg, leb, ◌==◌, ==_iff, map, arith, Option-cases,
}
use bitcoin_wolfe.Bytes.{Bytes, bytes_discrete, str}
use bitcoin_wolfe.Nostr.{
  NostrLib, Nip98Error, url_mismatch, invalid_base64, invalid_json, Verdict, verified, refused,
  ensure, max_auth_age_secs, nip98_kind, trim, to_ascii_lowercase, eq_ignore_ascii_case, drift,
  tag_loop, contains, is_allowed, check_url, check_method, check_event, check_parsed, check_decoded,
  verify_nip98,
}
use bitcoin_wolfe.Nostr.Tags.{LastTag, tag_loop-LastTag, tag_loop_method-LastTag}

ensure_iff :
    {A : Type 0} (b : Bool) (e : Nip98Error) (k : Verdict A) {a : A}
    → (ensure b e k ≡ verified a) ↔ ((b ≡ true) × (k ≡ verified a))
ensure_iff true e k = (λ h. (refl, h), λ p. p.1)
ensure_iff false e k = (λ h. absurd (ground (arith, h)), λ p. absurd (ground (arith, p.0)))

eq_ignore_ascii_case_iff :
    (a b : Bytes)
    → (eq_ignore_ascii_case a b ≡ true) ↔ (map to_ascii_lowercase a ≡ map to_ascii_lowercase b)
unfolding eq_ignore_ascii_case
eq_ignore_ascii_case_iff a b =
    elim (bytes_discrete (map to_ascii_lowercase a) (map to_ascii_lowercase b)) [
      | yes e ↦ (
        λ h. e,
        λ h.
            if_pos (bytes_discrete (map to_ascii_lowercase a) (map to_ascii_lowercase b)) e true
              false,
      )
      | no e ↦ (
        λ h. absurd (
            ground (
              arith,
              sym h
                  ∙ if_neg (bytes_discrete (map to_ascii_lowercase a) (map to_ascii_lowercase b)) e
                      true false,
            )),
        λ h. absurd (e h),
      )
    ]

drift_iff :
    (now created limit : ℕ)
    → (leb (drift now created) limit ≡ true) ↔ ((created ≤ now + limit) × (now ≤ created + limit))
unfolding drift
drift_iff now created limit =
    (λ h. (ground (arith, h), ground (arith, h)), λ p. ground (arith, p.0, p.1))

verified-injective : {A : Type 0} (a b : A) → verified a ≡ verified b → a ≡ b
verified-injective a b h = ground (arith, h)

module _ (N : NostrLib) where
  contains_iff :
      (keys : List N.PublicKey) (key : N.PublicKey) → (contains N keys key ≡ true) ↔ In key keys
  unfolding contains
  contains_iff [] key = (λ h. ground (arith, h), λ h. absurd h)
  contains_iff (k ∷ keys) key = elim (N.key_discrete k key) [
    | yes e ↦ (λ h. inl e, λ i. if_pos (N.key_discrete k key) e true (contains N keys key))
    | no e ↦
        let other = if_neg (N.key_discrete k key) e true (contains N keys key) in
        let (to, from) = contains_iff keys key in
        (
          λ h. inr (to (sym other ∙ h)),
          λ i. elim i [ inl e' ↦ absurd (e e') | inr rest ↦ other ∙ from rest ],
        )
  ]

  is_allowed_iff :
      (keys : List N.PublicKey) (key : N.PublicKey)
      → (is_allowed N keys key ≡ true) ↔ ((keys ≡ []) ⊎ In key keys)
  unfolding is_allowed
  is_allowed_iff [] key = (λ h. inl refl, λ h. refl)
  is_allowed_iff (k ∷ keys) key =
      let (to, from) = contains_iff (k ∷ keys) key in
      (λ h. inr (to h), λ h. elim h [ inl e ↦ absurd (ground (arith, e)) | inr i ↦ from i ])

  check_url_iff :
      {A : Type 0} (url : Bytes) (u : Option Bytes) (k : Verdict A) {a : A}
      → (check_url N url u k ≡ verified a) ↔ ((u ≡ some url) × (k ≡ verified a))
  unfolding check_url
  check_url_iff url none k = (λ h. absurd (ground (arith, h)), λ p. absurd (ground (arith, p.0)))
  check_url_iff url (some u) k = elim (bytes_discrete u url) [
    | yes e ↦
        let same = if_pos (bytes_discrete u url) e k (refused url_mismatch) in
        (λ h. (ap some e, sym same ∙ h), λ p. same ∙ p.1)
    | no e ↦
        let same = if_neg (bytes_discrete u url) e k (refused url_mismatch) in
        (λ h. absurd (ground (arith, sym same ∙ h)), λ p. absurd (e (some-injective _ _ p.0)))
  ]

  check_method_iff :
      {A : Type 0} (method : Bytes) (m : Option Bytes) (k : Verdict A) {a : A}
      → (check_method N method m k ≡ verified a) ↔ (
          (v : Bytes) × (m ≡ some v)
          × (map to_ascii_lowercase v ≡ map to_ascii_lowercase method)
          × (k ≡ verified a))
  unfolding check_method
  check_method_iff method none k =
      (λ h. absurd (ground (arith, h)), λ p. absurd (ground (arith, p.1)))
  check_method_iff method (some m) k = (
    λ h.
        let (b, r) = (ensure_iff (eq_ignore_ascii_case m method) _ _).0 h in
        (m, refl, (eq_ignore_ascii_case_iff m method).0 b, r),
    λ p.
        let same = some-injective _ _ p.1 in
        (ensure_iff (eq_ignore_ascii_case m method) _ _).1
          ((eq_ignore_ascii_case_iff m method).1 (ap (map to_ascii_lowercase) same ∙ p.2), p.3),
  )

  -- A signed event of the right kind, made within 60 seconds of now, whose last `u` tag is the URL, and
  -- whose last `method` tag is the method but for the case of its letters; and the key that signed
  -- it is one of the allowed ones, where there are any.
  pub record IsSigned (now : ℕ) (url method : Bytes) (allowed : List N.PublicKey) (event : N.Event)
      (key : N.PublicKey) : Type 0 where
    pub method_value : Bytes
    pub signed : N.verify event ≡ true
    pub kind : N.kind event ≡ nip98_kind
    pub not_future : N.created_at event ≤ now + 60
    pub not_old : now ≤ N.created_at event + 60
    pub for_url : LastTag (str "u") (N.tags event) url
    pub has_method : LastTag (str "method") (N.tags event) method_value
    pub for_method : map to_ascii_lowercase method_value ≡ map to_ascii_lowercase method
    pub may : (allowed ≡ []) ⊎ In (N.pubkey event) allowed
    pub same_key : N.pubkey event ≡ key

  check_event-IsSigned :
      (now : ℕ) (url method : Bytes) (allowed : List N.PublicKey) (event : N.Event)
      (key : N.PublicKey)
      → (check_event N now url method allowed event ≡ verified key)
        ↔ IsSigned now url method allowed event key
  unfolding check_event
  check_event-IsSigned now url method allowed event key = (
    λ h.
        let (e₁, r₁) = (ensure_iff (N.verify event) _ _).0 h in
        let (e₂, r₂) = (ensure_iff (N.kind event == nip98_kind) _ _).0 r₁ in
        let (e₃, r₃) =
          (ensure_iff (leb (drift now (N.created_at event)) max_auth_age_secs) _ _).0 r₂ in
        let (e₄, r₄) = (check_url_iff url (tag_loop none none (N.tags event)).0 _).0 r₃ in
        let (v, e₅, low, r₅) =
          (check_method_iff method (tag_loop none none (N.tags event)).1 _).0 r₄ in
        let (e₆, r₆) = (ensure_iff (is_allowed N allowed (N.pubkey event)) _ _).0 r₅ in
        let near = (drift_iff now (N.created_at event) 60).0 e₃ in
        record {
          method_value = v;
          signed = e₁;
          kind = (==_iff _ _).0 e₂;
          not_future = near.0;
          not_old = near.1;
          for_url = (tag_loop-LastTag (N.tags event) url).0 e₄;
          has_method = (tag_loop_method-LastTag (N.tags event) v).0 e₅;
          for_method = low;
          may = (is_allowed_iff allowed (N.pubkey event)).0 e₆;
          same_key = verified-injective _ _ r₆;
        },
    λ g. (ensure_iff (N.verify event) _ _).1 (
      g.signed,
      (ensure_iff (N.kind event == nip98_kind) _ _).1 (
        (==_iff _ _).1 g.kind,
        (ensure_iff (leb (drift now (N.created_at event)) max_auth_age_secs) _ _).1 (
          (drift_iff now (N.created_at event) 60).1 (g.not_future, g.not_old),
          (check_url_iff url (tag_loop none none (N.tags event)).0 _).1 (
            (tag_loop-LastTag (N.tags event) url).1 g.for_url,
            (check_method_iff method (tag_loop none none (N.tags event)).1 _).1 (
              g.method_value,
              (tag_loop_method-LastTag (N.tags event) g.method_value).1 g.has_method,
              g.for_method,
              (ensure_iff (is_allowed N allowed (N.pubkey event)) _ _).1
                  ((is_allowed_iff allowed (N.pubkey event)).1 g.may, ap verified g.same_key),
            ),
          ),
        ),
      ),
    ),
  )

  -- `verify_nip98` returns a key exactly when the value, trimmed, is the base64 of the UTF-8 JSON of an
  -- event which is signed for this request by this key, and the key is an allowed one or none is
  -- listed.
  pub verify_nip98-IsSigned :
      (now : ℕ) (auth_value url method : Bytes) (allowed : List N.PublicKey) (key : N.PublicKey)
      → (verify_nip98 N now auth_value url method allowed ≡ verified key) ↔ (
          (json : Bytes) × (event : N.Event) × (N.decode (trim auth_value) ≡ some json)
          × (N.is_utf8 json ≡ true)
          × (N.from_json json ≡ some event)
          × IsSigned now url method allowed event key)
  unfolding verify_nip98
  verify_nip98-IsSigned now auth_value url method allowed key = (
    λ h. elim (Option-cases (N.decode (trim auth_value))) [
      | inl e ↦
          let gone : Verdict.refused invalid_base64 ≡ verified key = rw (e, check_decoded) at h in
          absurd (ground (arith, gone))
      | inr (json, e) ↦
          let (utf8, parsed) = (ensure_iff (N.is_utf8 json) _ _).0 (rw (e, check_decoded) at h) in
          elim (Option-cases (N.from_json json)) [
            | inl e' ↦
                let gone : Verdict.refused invalid_json ≡ verified key =
                  rw (e', check_parsed) at parsed in
                absurd (ground (arith, gone))
            | inr (event, e') ↦ (
              json,
              event,
              e,
              utf8,
              e',
              (check_event-IsSigned now url method allowed event key).0
                  (rw (e', check_parsed) at parsed),
            )
          ]
    ],
    λ (json, event, e, utf8, e', g).
        rw (e, check_decoded)
          ((ensure_iff (N.is_utf8 json) _ _).1 (
            utf8,
            rw (e', check_parsed) ((check_event-IsSigned now url method allowed event key).1 g),
          )),
  )
