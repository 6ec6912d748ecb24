-- ===== src/Mempool/Policy/Check.antt =====
-- What passes `PolicyEngine::check` of crates/wolfe-mempool/src/policy.rs.
use bitcoin_wolfe.Prelude.{
  ◌≤◌, ◌≡◌, ◌≢◌, refl, true, false, Bool-cases, inl, inr, ◌⊎◌, ◌↔◌, List, [], ◌∷◌, arith, All,
}
use bitcoin_wolfe.Mempool.Types.{
  F64, OutPoint, TxOut, TxLib, Tx, MempoolConfig, Result, ok, err, ◌>>◌,
}
use bitcoin_wolfe.Mempool.Policy.{
  seen, max_weight, is_empty, check_duplicates, check_inputs, check_outputs, check_datacarrier,
  check_size, check,
}

module _ (F : F64) (B : TxLib) where
  -- No outpoint is spent twice, nor is one of `before`.
  abbrev pub Fresh : List OutPoint → List OutPoint → Type 0
  Fresh before [] = Unit
  Fresh before (o ∷ rest) = (seen o before ≡ false) × Fresh (o ∷ before) rest

  -- A data carrier is allowed, and its script is within the limit.
  abbrev pub CarrierAllowed : MempoolConfig F → TxOut B.Script → Type 0
  CarrierAllowed c o =
      (B.is_op_return o.script_pubkey ≡ false)
      ⊎ ((c.datacarrier ≡ true) × (B.script_len o.script_pubkey ≤ c.max_datacarrier_bytes))

  -- What the policy asks of a transaction.
  pub record IsStandard (c : MempoolConfig F) (tx : Tx B) : Type 0 where
    pub inputs : tx.input ≢ []
    pub not_coinbase : B.is_coinbase tx ≡ false
    pub fresh : Fresh [] tx.input
    pub carriers : All (CarrierAllowed c) tx.output
    pub weight : B.weight tx ≤ max_weight

  check_duplicates-Fresh :
      (before l : List OutPoint) → check_duplicates F B before l ≡ ok tt → Fresh before l
  unfolding check_duplicates
  check_duplicates-Fresh before [] e = tt
  check_duplicates-Fresh before (o ∷ l) e = elim (Bool-cases (seen o before)) [
    | inl s ↦ absurd (ground (arith, s))
    | inr s ↦ (s, check_duplicates-Fresh (o ∷ before) l (ground (arith, s)))
  ]

  Fresh-check_duplicates :
      (before l : List OutPoint) → Fresh before l → check_duplicates F B before l ≡ ok tt
  unfolding check_duplicates
  Fresh-check_duplicates before [] f = refl
  Fresh-check_duplicates before (o ∷ l) (s, f) =
      ground (arith, s, Fresh-check_duplicates (o ∷ before) l f)

  check_outputs-All :
      (c : MempoolConfig F) (l : List (TxOut B.Script))
      → check_outputs F B c l ≡ ok tt
      → All (CarrierAllowed c) l
  unfolding check_outputs
  check_outputs-All c [] e = tt
  check_outputs-All c (o ∷ l) e = (ground arith, check_outputs-All c l (ground arith))

  All-check_outputs :
      (c : MempoolConfig F) (l : List (TxOut B.Script))
      → All (CarrierAllowed c) l
      → check_outputs F B c l ≡ ok tt
  unfolding check_outputs
  All-check_outputs c [] a = refl
  All-check_outputs c (o ∷ l) (a, as') = ground (arith, a, All-check_outputs c l as')

  check_inputs-parts :
      (tx : Tx B)
      → check_inputs F B tx ≡ ok tt
      → (is_empty F B tx.input ≡ false)
        × (B.is_coinbase tx ≡ false)
        × (check_duplicates F B [] tx.input ≡ ok tt)
  unfolding check_inputs
  check_inputs-parts tx e = ground arith

  pub then_ok : (m k : Result F (Unit {0})) → ((m >> k) ≡ ok tt) → (m ≡ ok tt) × (k ≡ ok tt)
  then_ok (ok tt) k e = (refl, e)
  then_ok (err x) k e = absurd (ground arith)

  check_size-bound : (tx : Tx B) → check_size F B tx ≡ ok tt → B.weight tx ≤ max_weight
  unfolding check_size
  check_size-bound tx e = ground arith

  check-parts :
      (c : MempoolConfig F) (tx : Tx B)
      → check F B c tx ≡ ok tt
      → (check_inputs F B tx ≡ ok tt)
        × (check_outputs F B c tx.output ≡ ok tt)
        × (B.weight tx ≤ max_weight)
  unfolding check check_datacarrier
  check-parts c tx e =
      let (i, rest) =
        then_ok (check_inputs F B tx) (check_outputs F B c tx.output >> check_size F B tx) e in
      let (o, w) = then_ok (check_outputs F B c tx.output) (check_size F B tx) rest in
      (i, o, check_size-bound tx w)

  non_empty : (l : List OutPoint) → is_empty F B l ≡ false → l ≢ []
  unfolding is_empty
  non_empty [] e p = cc
  non_empty (x ∷ l) e p = cc

  empty-false : (l : List OutPoint) → l ≢ [] → is_empty F B l ≡ false
  unfolding is_empty
  empty-false [] p = absurd (p refl)
  empty-false (x ∷ l) p = refl

  standard : (c : MempoolConfig F) (tx : Tx B) → check F B c tx ≡ ok tt → IsStandard c tx
  standard c tx e =
      let (i, o, w) = check-parts c tx e in
      let (n, cb, d) = check_inputs-parts tx i in
      record {
        inputs = non_empty tx.input n;
        not_coinbase = cb;
        fresh = check_duplicates-Fresh [] tx.input d;
        carriers = check_outputs-All c tx.output o;
        weight = w;
      }

  passes : (c : MempoolConfig F) (tx : Tx B) → IsStandard c tx → check F B c tx ≡ ok tt
  unfolding check check_inputs check_datacarrier check_size
  passes c tx v = ground (
    arith,
    empty-false tx.input v.inputs,
    Fresh-check_duplicates [] tx.input v.fresh,
    All-check_outputs c tx.output v.carriers,
  )

  -- The policy passes a transaction exactly when it has an input, is no coinbase, spends no
  -- outpoint twice, carries data only where that is allowed and within the limit, and weighs at
  -- most 400,000 units.
  pub check-IsStandard :
      (c : MempoolConfig F) (tx : Tx B) → (check F B c tx ≡ ok tt) ↔ IsStandard c tx
  check-IsStandard c tx = (standard c tx, passes c tx)
