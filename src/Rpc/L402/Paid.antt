-- ===== src/Rpc/L402/Paid.antt =====
-- Whom `l402_middleware` of crates/wolfe-rpc/src/l402.rs lets through.
use bitcoin_wolfe.Prelude.{
  ℕ, ◌*◌, ◌%◌, ◌^◌, ◌≡◌, ◌≢◌, ◌↔◌, ◌⊎◌, inl, inr, refl, sym, ap, ◌∙◌, Option-cases, true, Option,
  none, some, List, [], ◌∷◌, ◌++◌, if_pos, arith,
}
use bitcoin_wolfe.Bytes.{Bytes, bytes_discrete}
use bitcoin_wolfe.Bytes.Prefix.{strip_prefix-append, strip_prefix-some}
use bitcoin_wolfe.Map.{MapOps, get-insert_ne}
use bitcoin_wolfe.Rpc.L402.{CryptoLib, Result, ok, err, verify_token}
use bitcoin_wolfe.Rpc.L402.Genuine.{IsGenuine, verify_token-IsGenuine}
use bitcoin_wolfe.Rpc.L402.Gate.{
  LightningManager, create_invoice, passed, scheme, token_of, NodeState, answer, ask,
  paid_or_refused, check_paid, with_secret, gate, l402_middleware, Event, payment_claimed, other,
  handle_event, handle_all,
}

token_of-some :
    (header : Option Bytes) (text : Bytes)
    → token_of header ≡ some text
    → header ≡ some (scheme ++ text)
unfolding token_of
token_of-some none text e = absurd (ground (arith, e))
token_of-some (some h) text e = ap some (strip_prefix-some scheme h text e)

-- Some event of the list claims the payment.
abbrev pub Claimed : Bytes → List Event → Type 0
Claimed payment_hash [] = ⊥
Claimed payment_hash (payment_claimed hash time ∷ events) =
    (hash ≡ payment_hash) ⊎ Claimed payment_hash events
Claimed payment_hash (other ∷ events) = Claimed payment_hash events

module _ (C : CryptoLib) (M : MapOps bytes_discrete ℕ) where
  -- A payment has an entry after the events exactly when it had one before or some event claims it.
  pub handle_all-Claimed :
      (events : List Event) (paid : M.Map) (payment_hash : Bytes)
      → (M.get (handle_all C M paid events) payment_hash ≢ none)
        ↔ ((M.get paid payment_hash ≢ none) ⊎ Claimed payment_hash events)
  unfolding handle_all handle_event
  handle_all-Claimed [] paid payment_hash = (inl, λ o. elim o [ inl h ↦ h | inr h ↦ absurd h ])
  handle_all-Claimed (other ∷ events) paid payment_hash =
      handle_all-Claimed events paid payment_hash
  handle_all-Claimed (payment_claimed hash time ∷ events) paid payment_hash =
      let (from, to) = handle_all-Claimed events (M.insert paid hash time) payment_hash in
      elim (bytes_discrete hash payment_hash) [
        | yes same ↦
            let entry : M.get (M.insert paid hash time) payment_hash ≡ some time =
              M.get-insert paid hash payment_hash time
              ∙ if_pos (bytes_discrete hash payment_hash) same (some time)
                  (M.get paid payment_hash) in
            (λ h. inr (inl same), λ o. to (inl (λ e. absurd (ground (arith, sym entry ∙ e)))))
        | no differs ↦
            let entry : M.get (M.insert paid hash time) payment_hash ≡ M.get paid payment_hash =
              get-insert_ne M paid hash payment_hash time differs in
            (
              λ h. elim (from h) [
                | inl there ↦ inl (λ e. there (entry ∙ e))
                | inr later ↦ inr (inr later)
              ],
              λ o. elim o [
                | inl there ↦ to (inl (λ e. there (sym entry ∙ e)))
                | inr claimed ↦ elim claimed [
                  | inl same ↦ absurd (differs same)
                  | inr later ↦ to (inr later)
                ]
              ],
            )
      ]

  -- The request carries a genuine token of a payment that some event has claimed.
  pub record MayPass (events : List Event) (now : ℕ) (secret : Bytes) (header : Option Bytes)
      : Type 0 where
    pub text : Bytes
    pub payment_hash : Bytes
    pub sent : header ≡ some (scheme ++ text)
    pub genuine : IsGenuine C now secret text payment_hash
    pub claimed : Claimed payment_hash events

  ask-passed :
      (state : NodeState C M) (now : ℕ) (secret : Bytes) (ln : Option LightningManager)
      → ask C M state now secret ln ≢ passed
  unfolding ask answer
  ask-passed state now secret none e = absurd (ground (arith, e))
  ask-passed state now secret (some ln) e =
      elim (Option-cases (
        create_invoice ln (some (state.l402_config.price_sats * 1000 % 2 ^ 64))
          state.l402_config.invoice_description (some state.l402_config.invoice_expiry_secs))) [
            | inl failed ↦ absurd (ground (arith, (rw (failed) at e)))
            | inr (invoice, made) ↦ absurd (ground (arith, (rw (made) at e)))
          ]

  pub check_paid-passed :
      (state : NodeState C M) (r : Result Bytes)
      → (check_paid C M state r ≡ passed) ↔ (
          (payment_hash : Bytes) × (r ≡ ok payment_hash)
          × (M.get state.paid_invoices payment_hash ≢ none))
  unfolding check_paid paid_or_refused
  check_paid-passed state (err e) =
      (λ h. absurd (ground (arith, h)), λ (p, h, q). absurd (ground (arith, h)))
  check_paid-passed state (ok payment_hash) =
      elim (Option-cases (M.get state.paid_invoices payment_hash)) [
        | inl absent ↦ (
          λ h. absurd (ground (arith, (rw (absent) at h))),
          λ (p, h, q).
              let same : payment_hash ≡ p = ground (arith, h) in
              absurd (q (ap (M.get state.paid_invoices) (sym same) ∙ absent)),
        )
        | inr (time, there) ↦ (
          λ h. (payment_hash, refl, λ gone. absurd (ground (arith, sym there ∙ gone))),
          λ r. rw (there) refl,
        )
      ]

  with_secret-passed :
      (state : NodeState C M) (events : List Event) (now : ℕ) (secret : Bytes)
      (header : Option Bytes)
      → state.paid_invoices ≡ handle_all C M M.empty events
      → (with_secret C M state now secret (token_of header) ≡ passed)
        ↔ MayPass events now secret header
  unfolding with_secret
  with_secret-passed state events now secret header history =
      let paid = λ (p : Bytes). handle_all-Claimed events M.empty p in
      let passes = λ (text : Bytes). check_paid-passed state (verify_token C now secret text) in
      (
        λ h. elim (Option-cases (token_of header)) [
          | inl without ↦
              absurd (ask-passed state now secret state.lightning (rw (without, with_secret) at h))
          | inr (text, e) ↦
              let (payment_hash, verified, there) = (passes text).0 (rw (e, with_secret) at h) in
              record {
                text = text;
                payment_hash = payment_hash;
                sent = token_of-some header text e;
                genuine = (verify_token-IsGenuine C now secret text payment_hash).0 verified;
                claimed =
                    elim ((paid payment_hash).0
                      (λ gone. there (ap (λ m. M.get m payment_hash) history ∙ gone))) [
                        | inl early ↦ absurd (early (M.get-empty payment_hash))
                        | inr c ↦ c
                      ];
              }
        ],
        λ m.
            let e : token_of header ≡ some m.text =
              ap token_of m.sent ∙ (unfold token_of in strip_prefix-append scheme m.text) in
            let verified =
              (verify_token-IsGenuine C now secret m.text m.payment_hash).1 m.genuine in
            rw (e, with_secret)
              ((passes m.text).1 (
                m.payment_hash,
                verified,
                λ gone.
                    (paid m.payment_hash).1 (inr m.claimed)
                      (ap (λ p. M.get p m.payment_hash) (sym history) ∙ gone),
              )),
      )

  -- Where the gate is on and has its secret, and the map of paid invoices has come from an empty one
  -- by the Lightning events, a request is let through exactly when its `Authorization` header is
  -- "L402 " and a genuine token, of this secret and not expired, for a payment that one of the
  -- events has claimed.
  pub l402_middleware-passed :
      (state : NodeState C M) (events : List Event) (now : ℕ) (secret : Bytes)
      (header : Option Bytes)
      → state.l402_config.enabled ≡ true
      → state.l402_secret ≡ some secret
      → state.paid_invoices ≡ handle_all C M M.empty events
      → (l402_middleware C M state now header ≡ passed) ↔ MayPass events now secret header
  unfolding l402_middleware gate
  l402_middleware-passed state events now secret header on has history =
      let e : l402_middleware C M state now header
          ≡ with_secret C M state now secret (token_of header) =
        rw (on) (rw (has, gate) refl) in
      let (from, to) = with_secret-passed state events now secret header history in
      (λ h. from (sym e ∙ h), λ m. e ∙ to m)
