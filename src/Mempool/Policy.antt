-- ===== src/Mempool/Policy.antt =====
-- crates/wolfe-mempool/src/policy.rs: `PolicyEngine`.
pub mod Check
use bitcoin_wolfe.Prelude.{
  ℕ, Bool, true, false, ◌&&◌, ◌||◌, not, Option, none, some, List, [], ◌∷◌, ltb, ◌==◌,
  if◌then◌else◌,
}
use bitcoin_wolfe.Mempool.Types.{
  F64, lt, feq, OutPoint, TxOut, Transaction, TxLib, Tx, MempoolConfig, MempoolError, Result, ok,
  err, ◌>>=◌, ◌>>◌, no_inputs, coinbase, duplicate_input, fee_too_low, too_large,
  datacarrier_too_large, datacarrier_disabled,
}

unfoldable pub same_outpoint : OutPoint → OutPoint → Bool
same_outpoint a b = a.txid == b.txid && a.vout == b.vout

unfoldable pub seen : OutPoint → List OutPoint → Bool
unfolding same_outpoint
seen o [] = false
seen o (x ∷ xs) = same_outpoint x o || seen o xs

-- 400,000 weight units.
abbrev pub max_weight : ℕ
max_weight = 400000

module _ (F : F64) (B : TxLib) where
  -- The loop over the inputs; `before` is the HashSet `seen`.
  unfoldable pub check_duplicates : List OutPoint → List OutPoint → Result F (Unit {0})
  unfolding seen
  check_duplicates before [] = ok tt
  check_duplicates before (o ∷ rest) =
      if seen o before then err duplicate_input else check_duplicates (o ∷ before) rest

  unfoldable pub is_empty : List OutPoint → Bool
  is_empty [] = true
  is_empty (_ ∷ _) = false

  unfoldable pub check_inputs : Tx B → Result F (Unit {0})
  unfolding check_duplicates is_empty
  check_inputs tx =
      if is_empty tx.input
      then err no_inputs
      else if B.is_coinbase tx
      then err coinbase
      else check_duplicates [] tx.input

  unfoldable pub check_outputs : MempoolConfig F → List (TxOut B.Script) → Result F (Unit {0})
  check_outputs c [] = ok tt
  check_outputs c (o ∷ rest) =
      let more = check_outputs c rest in
      if B.is_op_return o.script_pubkey
      then (if not c.datacarrier
          then err datacarrier_disabled
          else if ltb c.max_datacarrier_bytes (B.script_len o.script_pubkey)
          then err (datacarrier_too_large (B.script_len o.script_pubkey) c.max_datacarrier_bytes)
          else more)
      else more

  unfoldable pub check_datacarrier : MempoolConfig F → Tx B → Result F (Unit {0})
  unfolding check_outputs
  check_datacarrier c tx = check_outputs c tx.output

  unfoldable pub check_size : Tx B → Result F (Unit {0})
  check_size tx = if ltb max_weight (B.weight tx) then err (too_large (B.weight tx)) else ok tt

  unfoldable pub check : MempoolConfig F → Tx B → Result F (Unit {0})
  unfolding check_inputs check_datacarrier check_size
  check c tx = do check_inputs tx; check_datacarrier c tx; check_size tx

  unfoldable pub fee_rate_sat_per_vb : Tx B → ℕ → F.Float
  fee_rate_sat_per_vb tx fee_sats =
      let vsize = F.of_ℕ (B.vbytes_ceil tx) in
      if feq F vsize (F.of_ℕ 0) then F.of_ℕ 0 else F.div (F.of_ℕ fee_sats) vsize

  unfoldable pub check_fee_rate : MempoolConfig F → F.Float → Result F (Unit {0})
  check_fee_rate c fee_rate =
      if lt F fee_rate c.min_fee_rate then err (fee_too_low fee_rate c.min_fee_rate) else ok tt
