-- ===== src/Sync/State.antt =====
-- The state and the messages of crates/wolfe-node/src/sync.rs. Heights are u64 in the source and
-- numbers here; time is in seconds and an argument of the functions that read the clock.
use bitcoin_wolfe.Prelude.{
  ℕ, Bool, true, false, Option, none, some, List, [], ◌∷◌, ite, ltb, if◌then◌else◌,
}
use bitcoin_wolfe.Bytes.{Bytes, bytes_discrete}
use bitcoin_wolfe.Store.Tables.{HeaderLib, Redb, Tables}

pub data SyncState : Type 0 where
  waiting_for_peers syncing_headers syncing_blocks synced : SyncState

-- A C-like signed integer: `negsuc n` is -(n + 1).
pub data ℤ : Type 0 where
  pos : ℕ → ℤ
  negsuc : ℕ → ℤ

-- What the program uses of a `bitcoin::Transaction` here: its id, `compute_txid()`.
pub record TxLib : Type 1 where
  pub Tx : Type 0
  pub compute_txid : Tx → Bytes

pub record Block (L : HeaderLib) (T : TxLib) : Type 0 where
  pub header : L.Header
  pub txdata : List T.Tx

pub data Inventory : Type 0 where
  block compact_block witness_block : Bytes → Inventory
  transaction wtx witness_transaction : Bytes → Inventory
  other : Inventory

-- The `NetworkMessage`s that the engine handles or sends; `other` stands for all the rest.
pub data Message (L : HeaderLib) (T : TxLib) : Type 0 where
  headers : List L.Header → Message L T
  inv : List Inventory → Message L T
  block_msg : Block L T → Message L T
  tx : T.Tx → Message L T
  send_headers : Message L T
  get_headers : ℕ → List Bytes → Bytes → Message L T
  get_data : List Inventory → Message L T
  other_msg : Message L T

pub data ProcessBlockResult : Type 0 where
  new_block duplicate rejected : ProcessBlockResult

-- The answers of the consensus engine, which wraps libbitcoinkernel. `validate_block` is `none`
-- where it returns an error; `chain_height` and `get_block_at_height` are its answers after the
-- block was processed, the latter the `hash_hex` of the block.
pub record Kernel (L : HeaderLib) (T : TxLib) : Type 0 where
  pub validate_block : Block L T → Option ProcessBlockResult
  pub chain_height : ℕ
  pub get_block_at_height : ℕ → Option Bytes

-- `SyncEngine` with its `SyncProgress`. `peer_heights` lists a HashMap in its iteration order.
pub record SyncEngine (M : Redb) (L : HeaderLib) (T : TxLib) : Type 0 where
  pub store : Tables M
  pub state : SyncState
  pub headers_height : ℕ
  pub blocks_height : ℕ
  pub peer_count : ℕ
  pub sync_peer : Option ℕ
  pub tip_height : ℕ
  pub tip_hash : Bytes
  pub genesis_hash : Bytes
  pub consensus : Option (Kernel L T)
  pub validated_height : ℕ
  pub pending_blocks : List Bytes
  pub last_confirmed_txids : List Bytes
  pub last_validated_block : Option (Block L T × ℕ)
  pub known_txids : List Bytes
  pub pending_txs : List T.Tx
  pub peer_heights : List (ℕ × ℕ)
  pub last_block_time : ℕ
  pub last_reorg_height : Option ℕ

-- A response: the peer that it goes to, and the message.
abbrev pub Response : HeaderLib → TxLib → Type 0
Response L T = Option (ℕ × Message L T)

-- `self.sync_peer == Some(peer_id)`
unfoldable pub is_sync_peer : Option ℕ → ℕ → Bool
is_sync_peer none peer = false
is_sync_peer (some p) peer = if ltb p peer then false else if ltb peer p then false else true

unfoldable pub is_some {ℓ} : {A : Type ℓ} → Option A → Bool
is_some none = false
is_some (some _) = true

-- `list.contains(&hash)`
unfoldable pub contains : List Bytes → Bytes → Bool
contains [] h = false
contains (x ∷ xs) h = ite (bytes_discrete x h) true (contains xs h)
