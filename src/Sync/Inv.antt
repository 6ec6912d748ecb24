-- ===== src/Sync/Inv.antt =====
-- `handle_inv` of crates/wolfe-node/src/sync.rs.
pub mod Filter
use bitcoin_wolfe.Prelude.{
  ℕ, Bool, true, false, none, some, List, [], ◌∷◌, ◌++◌, if◌then◌else◌, ◌&&◌,
}
use bitcoin_wolfe.Bytes.{Bytes}
use bitcoin_wolfe.Store.Tables.{HeaderLib, Redb}
use bitcoin_wolfe.Sync.State.{
  SyncEngine, TxLib, Response, Inventory, SyncState, synced, syncing_headers, contains, get_data,
  witness_transaction,
}
use bitcoin_wolfe.Sync.Request.{getheaders_from}

-- The variables of the loop: the requests, whether a block was announced, and `known_txids`, a
-- HashSet of which only membership matters.
pub record Announced : Type 0 where
  pub tx_requests : List Inventory
  pub has_block : Bool
  pub known : List Bytes

unfoldable pub announce_tx : Announced → Bytes → Announced
unfolding contains
announce_tx a txid = if contains a.known txid then a else record a {
  tx_requests = a.tx_requests ++ witness_transaction txid ∷ [];
  known = txid ∷ a.known;
}

unfoldable pub announce : Announced → Inventory → Announced
unfolding announce_tx
announce a (Inventory.block hash) = record a { has_block = true }
announce a (Inventory.compact_block hash) = record a { has_block = true }
announce a (Inventory.transaction txid) = announce_tx a txid
announce a (Inventory.wtx wtxid) = announce_tx a wtxid
announce a _ = a

unfoldable pub announce_all : Announced → List Inventory → Announced
unfolding announce
announce_all a [] = a
announce_all a (inv ∷ rest) = announce_all (announce a inv) rest

unfoldable pub is_synced : SyncState → Bool
is_synced synced = true
is_synced _ = false

module _ (M : Redb) (L : HeaderLib) (T : TxLib) where
  unfoldable pub request_txs :
      SyncEngine M L T → ℕ → List Inventory → SyncEngine M L T × Response L T
  request_txs s peer_id [] = (s, none)
  request_txs s peer_id (inv ∷ rest) = (s, some (peer_id, get_data (inv ∷ rest)))

  unfoldable pub handle_inv :
      ℕ → SyncEngine M L T → ℕ → List Inventory → SyncEngine M L T × Response L T
  unfolding announce_all is_synced request_txs getheaders_from
  handle_inv now s₀ peer_id inventory =
      let a =
        announce_all (record { tx_requests = []; has_block = false; known = s₀.known_txids })
          inventory in
      let s = record s₀ { known_txids = a.known } in
      if a.has_block && is_synced s.state
      then (let s' = record s {
        sync_peer = some peer_id;
        state = syncing_headers;
        last_block_time = now;
      } in
          (s', getheaders_from M L T s' peer_id))
      else request_txs s peer_id a.tx_requests
