-- ===== src/Sync/Request.antt =====
-- `request_next_blocks` and `check_stall` of crates/wolfe-node/src/sync.rs.
pub mod Window
use bitcoin_wolfe.Prelude.{
  ℕ, zero, suc, ◌+◌, ◌-◌, min, Bool, Option, none, some, List, [], ◌∷◌, ◌++◌, map, ltb,
  if◌then◌else◌,
}
use bitcoin_wolfe.Bytes.{Bytes}
use bitcoin_wolfe.Store.Tables.{HeaderLib, Redb, Tables}
use bitcoin_wolfe.Sync.State.{
  SyncEngine, TxLib, Response, Inventory, witness_block, get_data, syncing_blocks, syncing_headers,
  SyncState,
}
use bitcoin_wolfe.Sync.Search.{stored_hash, build_getheaders}

abbrev pub block_download_batch : ℕ
block_download_batch = 128

module _ (M : Redb) (L : HeaderLib) (T : TxLib) where
  -- The loop over `rounds` heights from `height` up, which stops at the first that is missing.
  unfoldable pub collect : ℕ → Tables M → ℕ → List Bytes
  collect zero t height = []
  collect (suc rounds) t height =
      let rest = collect rounds t (height + 1) in
      elim (stored_hash M L t height) [ none ↦ [] | some hash ↦ hash ∷ rest ]

  -- The inventory is empty: nothing is sent. Otherwise the hashes are pending.
  unfoldable pub send_request : SyncEngine M L T → ℕ → List Bytes → SyncEngine M L T × Response L T
  send_request s peer_id [] = (s, none)
  send_request s peer_id (hash ∷ rest) = (
    record s { pending_blocks = s.pending_blocks ++ hash ∷ rest },
    some (peer_id, get_data (map witness_block (hash ∷ rest))),
  )

  unfoldable pub request_next_blocks : SyncEngine M L T → ℕ → SyncEngine M L T × Response L T
  unfolding collect send_request
  request_next_blocks s peer_id =
      let start = s.validated_height + 1 in
      let end = min (start + block_download_batch) (s.tip_height + 1) in
      if ltb s.tip_height start
      then (s, none)
      else send_request s peer_id (collect (end - start) s.store start)

  unfoldable pub getheaders_from : SyncEngine M L T → ℕ → Response L T
  getheaders_from s peer_id =
      some (peer_id, build_getheaders M L T s.store s.tip_height s.genesis_hash)

  -- The `match` of `check_stall` on the state.
  unfoldable pub retry :
      ℕ → SyncEngine M L T → ℕ → SyncState → List Bytes → SyncEngine M L T × Response L T
  unfolding request_next_blocks getheaders_from
  retry now s peer_id syncing_blocks (hash ∷ rest) =
      request_next_blocks (record s { pending_blocks = []; last_block_time = now }) peer_id
  retry now s peer_id syncing_headers pending =
      (record s { last_block_time = now }, getheaders_from s peer_id)
  retry now s peer_id _ _ = (s, none)

  unfoldable pub check_stall : ℕ → SyncEngine M L T → SyncEngine M L T × Response L T
  unfolding retry
  check_stall now s = if ltb (now - s.last_block_time) 60 then (s, none) else elim s.sync_peer [
    | none ↦ (s, none)
    | some peer_id ↦ retry now s peer_id s.state s.pending_blocks
  ]
