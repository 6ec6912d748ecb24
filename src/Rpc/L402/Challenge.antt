-- ===== src/Rpc/L402/Challenge.antt =====
-- What `l402_middleware` of crates/wolfe-rpc/src/l402.rs answers without a token, and with the
-- token of that answer once its invoice is paid.
use bitcoin_wolfe.Prelude.{
  ℕ, ◌+◌, ◌*◌, ◌%◌, ◌^◌, ◌≤◌, ◌<◌, ◌≡◌, inr, refl, true, Option, none, some, List, ◌++◌, length,
  arith,
}
use bitcoin_wolfe.Bytes.{
  Bytes, AreBytes, AreBytes-append, AreBytes-to_be, bytes_discrete, to_be_bytes,
}
use bitcoin_wolfe.Bytes.Prefix.{strip_prefix-append}
use bitcoin_wolfe.Map.{MapOps}
use bitcoin_wolfe.Rpc.L402.{CryptoLib, compute_hmac, token_bytes, create_token, verify_token}
use bitcoin_wolfe.Rpc.L402.Genuine.{IsGenuine, verify_token-IsGenuine}
use bitcoin_wolfe.Rpc.L402.Paid.{Claimed, handle_all-Claimed, check_paid-passed}
use bitcoin_wolfe.Rpc.L402.Gate.{
  LightningManager, create_invoice, passed, challenge, scheme, token_of, www_authenticate,
  NodeState, token_for, answer, ask, with_secret, gate, l402_middleware, Event, handle_all,
}

module _ (C : CryptoLib) (M : MapOps bytes_discrete ℕ) where
  AreBytes-token_bytes :
      (secret payment_hash : Bytes) (expiry : ℕ)
      → AreBytes payment_hash
      → AreBytes (token_bytes C secret payment_hash expiry)
  unfolding token_bytes compute_hmac
  AreBytes-token_bytes secret payment_hash expiry a =
      let time = to_be_bytes 8 expiry in
      (
        omega arith,
        AreBytes-append payment_hash (time ++ compute_hmac C secret payment_hash expiry) a (
            AreBytes-append time (compute_hmac C secret payment_hash expiry)
              (AreBytes-to_be 8 expiry) (C.hmac-AreBytes secret (payment_hash ++ time))),
      )

  IsGenuine-create_token :
      (now : ℕ) (secret payment_hash : Bytes) (expiry : ℕ)
      → AreBytes payment_hash
      → length payment_hash ≡ 32
      → expiry < 2 ^ 64
      → now ≤ expiry
      → IsGenuine C now secret (create_token C secret payment_hash expiry) payment_hash
  unfolding create_token
  IsGenuine-create_token now secret payment_hash expiry are long fits fresh = record {
    expiry = expiry;
    fits = fits;
    long = long;
    fresh = fresh;
    bytes =
        C.decode-encode (token_bytes C secret payment_hash expiry)
          (AreBytes-token_bytes secret payment_hash expiry are);
  }

  -- The answer to a request without a token of the scheme, for an invoice that parses.
  challenged :
      (state : NodeState C M) (now : ℕ) (secret : Bytes) (header : Option Bytes)
      (ln : LightningManager) (invoice payment_hash : Bytes)
      → state.l402_config.enabled ≡ true
      → state.l402_secret ≡ some secret
      → state.lightning ≡ some ln
      → token_of header ≡ none
      → create_invoice ln
          (some (state.l402_config.price_sats * 1000 % 2 ^ 64))
          state.l402_config.invoice_description
          (some state.l402_config.invoice_expiry_secs)
        ≡ some invoice
      → C.payment_hash invoice ≡ some payment_hash
      → now + state.l402_config.token_expiry_secs < 2 ^ 64
      → l402_middleware C M state now header
        ≡ challenge
            (www_authenticate
              (create_token C secret payment_hash (now + state.l402_config.token_expiry_secs))
              invoice)
            invoice
            state.l402_config.price_sats
  unfolding l402_middleware gate with_secret ask answer token_for
  challenged state now secret header ln invoice payment_hash on has node without made hash fits =
      let clock : (now + state.l402_config.token_expiry_secs) % 2 ^ 64
          ≡ now + state.l402_config.token_expiry_secs =
        omega (arith, fits) in
      rw (on) (
        rw (has, gate)
          (rw (without, with_secret)
            (rw (node, ask) (rw (made, answer) (rw (hash, token_for) (rw (clock) refl))))))

  -- A request without a token gets an invoice and a token, and once Lightning has claimed the payment
  -- of that invoice, a later request with that token is let through until the token expires,
  -- `token_expiry_secs` after it was issued, whatever events come before and after the claim.
  -- The invoice parses, and the times stay below 2^64.
  pub l402_middleware-challenge :
      (state : NodeState C M) (now : ℕ) (secret : Bytes) (header : Option Bytes)
      (ln : LightningManager) (invoice payment_hash : Bytes) (later : ℕ) (events : List Event)
      → state.l402_config.enabled ≡ true
      → state.l402_secret ≡ some secret
      → state.lightning ≡ some ln
      → token_of header ≡ none
      → create_invoice ln
          (some (state.l402_config.price_sats * 1000 % 2 ^ 64))
          state.l402_config.invoice_description
          (some state.l402_config.invoice_expiry_secs)
        ≡ some invoice
      → C.payment_hash invoice ≡ some payment_hash
      → now + state.l402_config.token_expiry_secs < 2 ^ 64
      → later ≤ now + state.l402_config.token_expiry_secs
      → Claimed payment_hash events
      → let token =
          create_token C secret payment_hash (now + state.l402_config.token_expiry_secs) in
        (l402_middleware C M state now header
          ≡ challenge (www_authenticate token invoice) invoice state.l402_config.price_sats)
        × (l402_middleware C M
              (record state { paid_invoices = handle_all C M state.paid_invoices events })
              later
              (some (scheme ++ token))
            ≡ passed)
  unfolding l402_middleware gate with_secret
  l402_middleware-challenge state now secret header ln invoice payment_hash later events on has node
        without made hash fits fresh claimed =
      let expiry = now + state.l402_config.token_expiry_secs in
      let token = create_token C secret payment_hash expiry in
      let state' = record state { paid_invoices = handle_all C M state.paid_invoices events } in
      let genuine =
        IsGenuine-create_token later secret payment_hash expiry
          (C.payment_hash-AreBytes invoice payment_hash hash)
          (C.length-payment_hash invoice payment_hash hash) fits fresh in
      let there =
        (handle_all-Claimed C M events state.paid_invoices payment_hash).1 (inr claimed) in
      let e : token_of (some (scheme ++ token)) ≡ some token =
        (unfold token_of in strip_prefix-append scheme token) in
      (
        challenged state now secret header ln invoice payment_hash on has node without made hash
            fits,
        rw (on) (
            rw (has, gate)
              (rw (e, with_secret)
                ((check_paid-passed C M state' (verify_token C later secret token)).1 (
                  payment_hash,
                  (verify_token-IsGenuine C later secret token payment_hash).1 genuine,
                  there,
                )))),
      )
