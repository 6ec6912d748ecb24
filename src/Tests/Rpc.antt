-- ===== src/Tests/Rpc.antt =====
-- The tokens and the middleware of crates/wolfe-rpc/src/l402.rs on concrete requests.
use bitcoin_wolfe.Prelude.{
  ℕ, ◌+◌, ◌*◌, ◌%◌, ◌^◌, ◌≡◌, ◌↔◌, inl, refl, true, none, some, List, [], ◌∷◌, ◌++◌, arith,
  replicate,
}
use bitcoin_wolfe.Bytes.{Bytes, bytes_discrete}
use bitcoin_wolfe.Map.Entries.{entries_map}
use bitcoin_wolfe.Map.{MapOps}
use bitcoin_wolfe.Rpc.L402.{ok, create_token, verify_token}
use bitcoin_wolfe.Rpc.L402.Gate.{
  LightningManager, challenge, passed, scheme, www_authenticate, Event, payment_claimed, other,
  NodeState, l402_middleware, token_of, handle_all, create_invoice,
}
use bitcoin_wolfe.Rpc.L402.Genuine.{IsGenuine, verify_token-IsGenuine}
use bitcoin_wolfe.Rpc.L402.Paid.{MayPass, l402_middleware-passed}
use bitcoin_wolfe.Rpc.L402.Challenge.{l402_middleware-challenge}
use bitcoin_wolfe.Tests.Wire.{crypto, hash₇}

abbrev invoices : MapOps bytes_discrete ℕ
invoices = entries_map bytes_discrete

abbrev secret : Bytes
secret = replicate 32 9

verify_token-IsGenuine_example :
    (verify_token crypto 100 secret (create_token crypto secret hash₇ 500) ≡ ok hash₇)
    ↔ IsGenuine crypto 100 secret (create_token crypto secret hash₇ 500) hash₇
verify_token-IsGenuine_example =
    verify_token-IsGenuine crypto 100 secret (create_token crypto secret hash₇ 500) hash₇

abbrev lightning : LightningManager
lightning = record {
  description_fits = λ d. true;
  create_bolt11_invoice = λ amount d expiry. some (1 ∷ 2 ∷ []);
}

abbrev events : List Event
events = other ∷ payment_claimed hash₇ 120 ∷ []

abbrev state₀ : NodeState crypto invoices
state₀ = record {
  l402_config = record {
    enabled = true;
    price_sats = 10;
    token_expiry_secs = 3600;
    invoice_expiry_secs = 600;
    invoice_description = [];
  };
  l402_secret = some secret;
  paid_invoices = handle_all crypto invoices invoices.empty events;
  lightning = some lightning;
}

l402_middleware-passed_example :
    (l402_middleware crypto invoices state₀ 130
        (some (scheme ++ create_token crypto secret hash₇ 500))
      ≡ passed)
    ↔ MayPass crypto invoices events 130 secret
        (some (scheme ++ create_token crypto secret hash₇ 500))
l402_middleware-passed_example =
    l402_middleware-passed crypto invoices state₀ events 130 secret
      (some (scheme ++ create_token crypto secret hash₇ 500)) refl refl refl

made : create_invoice lightning (some (10 * 1000 % 2 ^ 64)) [] (some 600) ≡ some (1 ∷ 2 ∷ [])
unfolding create_invoice
made = refl

no_token : token_of none ≡ none
unfolding token_of
no_token = refl

l402_middleware-challenge_example :
    (l402_middleware crypto invoices state₀ 100 none
      ≡ challenge
          (www_authenticate (create_token crypto secret hash₇ (100 + 3600)) (1 ∷ 2 ∷ []))
          (1 ∷ 2 ∷ [])
          10)
    × (l402_middleware crypto invoices
          (record state₀ { paid_invoices = handle_all crypto invoices state₀.paid_invoices events })
          3000
          (some (scheme ++ create_token crypto secret hash₇ (100 + 3600)))
        ≡ passed)
l402_middleware-challenge_example =
    l402_middleware-challenge crypto invoices state₀ 100 secret none lightning (1 ∷ 2 ∷ []) hash₇
      3000 events refl refl refl no_token made refl (omega arith) (omega arith) (inl refl)
