-- ===== src/Tests/Sample.antt =====
-- Concrete headers, transactions, JSON, floating-point numbers and containers: the parameters of the
-- models of crates/wolfe-store, crates/wolfe-node/src/sync.rs and crates/wolfe-mempool, instantiated.
use bitcoin_wolfe.Prelude.{
  ℕ, zero, suc, ◌/◌, ◌≡◌, refl, inl, inr, ◌⊎◌, true, false, Option, none, some, [], ◌∷◌, arith, ltb,
  leb, ℕ_discrete, dec_lt,
}
use bitcoin_wolfe.Bytes.{Bytes, bytes_discrete, to_be_bytes, length-to_be}
use bitcoin_wolfe.Map.Entries.{entries_map}
use bitcoin_wolfe.Store.Tables.{HeaderLib, Redb}
use bitcoin_wolfe.Store.Peers.{JsonLib, PeerRecord}
use bitcoin_wolfe.Sync.State
use bitcoin_wolfe.Mempool.Types

abbrev pub redb : Redb
redb = entries_map bytes_discrete

-- A header is its number and the number of its parent; from 100 on it has no proof of work.
pub record Link : Type 0 where
  pub id : ℕ
  pub prev : ℕ

abbrev pub read_link : Bytes → Option Link
read_link [] = none
read_link (id ∷ []) = none
read_link (id ∷ prev ∷ rest) = some (record { id = id; prev = prev })

abbrev pub links : HeaderLib
links = record {
  Header = Link;
  serialize = λ h. h.id ∷ h.prev ∷ [];
  deserialize = read_link;
  block_hash = λ h. to_be_bytes 32 h.id;
  prev_blockhash = λ h. to_be_bytes 32 h.prev;
  validate_pow = λ h. ltb h.id 100;
  deserialize-serialize = λ h. refl;
  length-block_hash = λ h. length-to_be 32 h.id;
}

abbrev pub link : ℕ → ℕ → Link
link id prev = record { id = id; prev = prev }

-- A byte string before others: each of its bytes after a 1, and a 0 at its end.
abbrev put : Bytes → Bytes → Bytes
put [] rest = 0 ∷ rest
put (b ∷ bs) rest = 1 ∷ b ∷ put bs rest

abbrev take_apart : Bytes → Bytes × Bytes
take_apart [] = ([], [])
take_apart (zero ∷ rest) = ([], rest)
take_apart (suc n ∷ []) = ([], [])
take_apart (suc n ∷ b ∷ rest) = let r = take_apart rest in (b ∷ r.0, r.1)

take_apart-put : (bs rest : Bytes) → take_apart (put bs rest) ≡ (bs, rest)
take_apart-put [] rest = refl
take_apart-put (b ∷ bs) rest = rw (take_apart-put bs rest) refl

abbrev write_record : PeerRecord → Bytes
write_record r =
    r.services
    ∷ r.last_seen
    ∷ r.first_seen
    ∷ r.connection_count
    ∷ r.fail_count
    ∷ put r.addr r.user_agent

abbrev read_record : Bytes → Option PeerRecord
read_record (s ∷ l ∷ f ∷ c ∷ n ∷ rest) =
    let r = take_apart rest in
    some (record {
      addr = r.0;
      services = s;
      last_seen = l;
      first_seen = f;
      connection_count = c;
      fail_count = n;
      user_agent = r.1;
    })
read_record _ = none

pub read_record-write_record : (r : PeerRecord) → read_record (write_record r) ≡ some r
read_record-write_record r = rw (take_apart-put r.addr r.user_agent) refl

abbrev pub json : JsonLib
json = record {
  to_vec = write_record;
  from_slice = read_record;
  from_slice-to_vec = read_record-write_record;
}

abbrev pub peer : ℕ → ℕ → PeerRecord
peer addr last_seen = record {
  addr = addr ∷ [];
  services = 9;
  last_seen = last_seen;
  first_seen = 1;
  connection_count = 2;
  fail_count = 0;
  user_agent = [];
}

-- Transactions of the sync engine are their numbers.
abbrev pub sync_txs : State.TxLib
sync_txs = record { Tx = ℕ; compute_txid = λ n. to_be_bytes 32 n }

pub leb_trans : (a b c : ℕ) → leb a b ≡ true → leb b c ≡ true → leb a c ≡ true
leb_trans a b c e f = ground arith

pub leb_total : (a b : ℕ) → (leb a b ≡ true) ⊎ (leb b a ≡ true)
leb_total a b = elim (dec_lt a b) [ yes p ↦ inl (ground arith) | no p ↦ inr (ground arith) ]

-- Fee rates that are whole numbers.
abbrev pub whole : Types.F64
whole = record {
  Float = ℕ;
  of_ℕ = λ n. n;
  div = λ a b. a / b;
  le = leb;
  IsNumber = λ n. Unit;
  le_trans = leb_trans;
  le_total = λ a b _ _. leb_total a b;
  of_ℕ-IsNumber = λ n. tt;
  div-IsNumber = λ n m _. tt;
}

-- A transaction is named by its number; its outputs hold scripts of a given length.
abbrev pub mempool_txs : Types.TxLib
mempool_txs = record {
  Script = ℕ;
  Rest = ℕ;
  compute_txid = λ t. t.rest;
  weight = λ t. 400;
  vbytes_ceil = λ t. 100;
  is_coinbase = λ t. false;
  is_op_return = λ s. false;
  script_len = λ s. s;
}

abbrev pub pool_map : Types.Entries whole mempool_txs
pool_map = entries_map ℕ_discrete
