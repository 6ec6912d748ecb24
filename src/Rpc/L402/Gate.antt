-- ===== src/Rpc/L402/Gate.antt =====
-- `l402_middleware` of crates/wolfe-rpc/src/l402.rs, `create_invoice` of
-- crates/wolfe-lightning/src/lib.rs that it calls, and the claimed payments that
-- crates/wolfe-lightning/src/event_handler.rs writes for it. The route behind the middleware and
-- the log are left out.
use bitcoin_wolfe.Prelude.{
  ℕ, ◌+◌, ◌*◌, ◌%◌, ◌^◌, Bool, Option, none, some, List, [], ◌∷◌, ◌++◌, if◌then◌else◌,
}
use bitcoin_wolfe.Bytes.{Bytes, bytes_discrete, str}
use bitcoin_wolfe.Bytes.Prefix.{strip_prefix}
use bitcoin_wolfe.Map.{MapOps}
use bitcoin_wolfe.Rpc.L402.{CryptoLib, TokenError, Result, ok, err, create_token, verify_token}

-- `Description::new` of lightning_invoice, true where it takes the text, and
-- `create_bolt11_invoice` of the channel manager at the call: the amount, the description, the
-- seconds to the expiry, and the invoice where it makes one.
pub record LightningManager : Type 0 where
  pub description_fits : Bytes → Bool
  pub create_bolt11_invoice : Option ℕ → Bytes → Option ℕ → Option Bytes

unfoldable pub create_invoice : LightningManager → Option ℕ → Bytes → Option ℕ → Option Bytes
create_invoice ln amount_msat description expiry_secs =
    if ln.description_fits description
    then ln.create_bolt11_invoice amount_msat description expiry_secs
    else none

pub record L402Config : Type 0 where
  pub enabled : Bool
  pub price_sats : ℕ
  pub token_expiry_secs : ℕ
  pub invoice_expiry_secs : ℕ
  pub invoice_description : Bytes

-- The reason of a refusal: an error of the token, or a payment that is missing.
pub data Reason : Type 0 where
  bad_token : TokenError → Reason
  not_yet_paid : Reason

-- `passed` stands for `next.run(req)`. A `challenge` has the `WWW-Authenticate` header, and the
-- invoice and the price of its body.
pub data Response : Type 0 where
  passed : Response
  payment_required : Reason → Response
  challenge : Bytes → Bytes → ℕ → Response
  service_unavailable : Response
  internal_server_error : Response

abbrev pub scheme : Bytes
scheme = str "L402 "

-- The token of the `Authorization` header, where it has one of this scheme.
unfoldable pub token_of : Option Bytes → Option Bytes
unfolding strip_prefix
token_of none = none
token_of (some header) = strip_prefix scheme header

-- `format!("L402 macaroon=\"{}\", invoice=\"{}\"", token, invoice_str)`, with 34 for the quotes.
unfoldable pub www_authenticate : Bytes → Bytes → Bytes
www_authenticate token invoice =
    str "L402 macaroon=" ++ (34 ∷ token ++ (34 ∷ str ", invoice=" ++ (34 ∷ invoice ++ 34 ∷ [])))

-- `Event::PaymentClaimed` with its payment hash and the time of its handling; no other event of the
-- handler writes the map.
pub data Event : Type 0 where
  payment_claimed : Bytes → ℕ → Event
  other : Event

module _ (C : CryptoLib) (M : MapOps bytes_discrete ℕ) where
  pub record NodeState : Type 0 where
    pub l402_config : L402Config
    pub l402_secret : Option Bytes
    pub paid_invoices : M.Map
    pub lightning : Option LightningManager

  -- A token for the payment hash of the invoice; without one it is empty.
  unfoldable pub token_for : Bytes → Option Bytes → ℕ → Bytes
  token_for secret none expiry = []
  token_for secret (some payment_hash) expiry = create_token C secret payment_hash expiry

  -- The end of the request with the invoice in hand.
  unfoldable pub answer : NodeState → ℕ → Bytes → Option Bytes → Response
  unfolding token_for www_authenticate
  answer state now secret none = internal_server_error
  answer state now secret (some invoice) =
      let expiry = (now + state.l402_config.token_expiry_secs) % 2 ^ 64 in
      challenge (www_authenticate (token_for secret (C.payment_hash invoice) expiry) invoice)
        invoice state.l402_config.price_sats

  -- No token: an invoice.
  unfoldable pub ask : NodeState → ℕ → Bytes → Option LightningManager → Response
  unfolding create_invoice answer
  ask state now secret none = service_unavailable
  ask state now secret (some ln) =
      let config = state.l402_config in
      answer state now secret (
        create_invoice ln (some (config.price_sats * 1000 % 2 ^ 64)) config.invoice_description
          (some config.invoice_expiry_secs))

  unfoldable pub paid_or_refused : Option ℕ → Response
  paid_or_refused none = payment_required not_yet_paid
  paid_or_refused (some time) = passed

  unfoldable pub check_paid : NodeState → Result Bytes → Response
  unfolding paid_or_refused
  check_paid state (err e) = payment_required (bad_token e)
  check_paid state (ok payment_hash) = paid_or_refused (M.get state.paid_invoices payment_hash)

  unfoldable pub with_secret : NodeState → ℕ → Bytes → Option Bytes → Response
  unfolding check_paid ask
  with_secret state now secret none = ask state now secret state.lightning
  with_secret state now secret (some token) = check_paid state (verify_token C now secret token)

  unfoldable pub gate : NodeState → ℕ → Option Bytes → Option Bytes → Response
  unfolding with_secret
  gate state now none header = passed
  gate state now (some secret) header = with_secret state now secret (token_of header)

  unfoldable pub l402_middleware : NodeState → ℕ → Option Bytes → Response
  unfolding gate
  l402_middleware state now header =
      if state.l402_config.enabled then gate state now state.l402_secret header else passed

  unfoldable pub handle_event : M.Map → Event → M.Map
  handle_event paid (payment_claimed payment_hash now) = M.insert paid payment_hash now
  handle_event paid other = paid

  -- The map after the events, in their order.
  unfoldable pub handle_all : M.Map → List Event → M.Map
  unfolding handle_event
  handle_all paid [] = paid
  handle_all paid (e ∷ events) = handle_all (handle_event paid e) events
