-- ===== src/Mempool/Types.antt =====
-- The data of crates/wolfe-mempool: transactions as the code reads them, configuration, entries,
-- errors, and the floating-point numbers of the fee rates.
use bitcoin_wolfe.Prelude.{ℕ, ◌<◌, ◌≡◌, ◌⊎◌, Bool, true, not, ◌&&◌, List, ℕ_discrete}
use bitcoin_wolfe.Map.{MapOps}

-- IEEE doubles, by the operations that the code uses. `a < b` and `a == b` of f64 follow from
-- `<=`, which is transitive, and total on what is not NaN; a quotient by a positive integer is not
-- NaN.
pub record F64 : Type 1 where
  pub Float : Type 0
  pub of_ℕ : ℕ → Float
  pub div : Float → Float → Float
  pub le : Float → Float → Bool
  pub IsNumber : Float → Type 0
  pub le_trans : (a b c : Float) → le a b ≡ true → le b c ≡ true → le a c ≡ true
  pub le_total : (a b : Float) → IsNumber a → IsNumber b → (le a b ≡ true) ⊎ (le b a ≡ true)
  pub of_ℕ-IsNumber : (n : ℕ) → IsNumber (of_ℕ n)
  pub div-IsNumber : (n m : ℕ) → 0 < m → IsNumber (div (of_ℕ n) (of_ℕ m))

module _ (F : F64) where
  abbrev pub lt : F.Float → F.Float → Bool
  lt a b = F.le a b && not (F.le b a)

  abbrev pub feq : F.Float → F.Float → Bool
  feq a b = F.le a b && F.le b a

-- Transaction ids are 256-bit numbers.
pub record OutPoint : Type 0 where
  pub txid : ℕ
  pub vout : ℕ

-- `script_pubkey` is opened by functions of the `bitcoin` crate alone.
pub record TxOut (Script : Type 0) : Type 0 where
  pub value : ℕ
  pub script_pubkey : Script

-- Of `bitcoin::Transaction` the code reads the outpoints that the inputs spend, and the outputs;
-- `rest` stands for what else there is.
pub record Transaction (Script Rest : Type 0) : Type 0 where
  pub input : List OutPoint
  pub output : List (TxOut Script)
  pub rest : Rest

-- What the code calls of the `bitcoin` crate. `vbytes_ceil` is the weight over four, rounded up.
pub record TxLib : Type 1 where
  pub Script : Type 0
  pub Rest : Type 0
  pub compute_txid : Transaction Script Rest → ℕ
  pub weight : Transaction Script Rest → ℕ
  pub vbytes_ceil : Transaction Script Rest → ℕ
  pub is_coinbase : Transaction Script Rest → Bool
  pub is_op_return : Script → Bool
  pub script_len : Script → ℕ

abbrev pub Tx : TxLib → Type 0
Tx B = Transaction B.Script B.Rest

-- wolfe_types::config::MempoolConfig, as far as the mempool reads it.
pub record MempoolConfig (F : F64) : Type 0 where
  pub max_size_mb : ℕ
  pub min_fee_rate : F.Float
  pub max_datacarrier_bytes : ℕ
  pub datacarrier : Bool
  pub max_ancestors : ℕ
  pub max_descendants : ℕ

-- `added_at` is in seconds.
pub record MempoolEntry (F : F64) (B : TxLib) : Type 0 where
  pub tx : Tx B
  pub txid : ℕ
  pub fee : ℕ
  pub fee_rate : F.Float
  pub size_vbytes : ℕ
  pub added_at : ℕ
  pub ancestor_count : ℕ
  pub descendant_count : ℕ

-- error.rs; the texts of the messages are left out, so `rejected` has one constructor for each.
-- `full` holds the bytes that the source gives in megabytes.
pub data MempoolError (F : F64) : Type 0 where
  no_inputs coinbase duplicate_input : MempoolError F
  fee_too_low : F.Float → F.Float → MempoolError F
  too_large : ℕ → MempoolError F
  full : ℕ → ℕ → MempoolError F
  datacarrier_too_large : ℕ → ℕ → MempoolError F
  datacarrier_disabled : MempoolError F
  too_many_ancestors : ℕ → ℕ → MempoolError F
  too_many_descendants : ℕ → ℕ → MempoolError F
  duplicate : ℕ → MempoolError F

pub data Result {ℓ} (F : F64) (A : Type ℓ) : Type ℓ where
  ok : A → Result F A
  err : MempoolError F → Result F A

infixl 5 ◌>>=◌ ◌>>◌
abbrev pub ◌>>=◌ {ℓ κ} :
    {F : F64} {A : Type ℓ} {B : Type κ} → Result F A → (A → Result F B) → Result F B
ok a >>= f = f a
err e >>= f = err e

abbrev pub ◌>>◌ {ℓ} : {F : F64} {B : Type ℓ} → Result F (Unit {0}) → Result F B → Result F B
m >> k = m >>= λ _. k

-- A DashMap from transaction ids to entries.
abbrev pub Entries : F64 → TxLib → Type 1
Entries F B = MapOps ℕ_discrete (MempoolEntry F B)
