-- ===== src/Sync/Blocks.antt =====
-- `handle_block` and `handle_message` of crates/wolfe-node/src/sync.rs.
pub mod Verdict
pub mod Progress
use bitcoin_wolfe.Prelude.{
  ℕ, ◌+◌, ◌-◌, ◌%◌, ◌^◌, Bool, not, true, false, ◌&&◌, Option, none, some, List, [], ◌∷◌, ◌++◌, ite,
  ltb, leb, map, if◌then◌else◌,
}
use bitcoin_wolfe.Bytes.{Bytes, bytes_discrete}
use bitcoin_wolfe.Store.Tables.{HeaderLib, Redb}
use bitcoin_wolfe.Sync.State.{
  SyncEngine, TxLib, Response, Kernel, Block, Message, ProcessBlockResult, new_block, duplicate,
  rejected, contains, syncing_headers, synced, headers, inv, block_msg, tx,
}
use bitcoin_wolfe.Sync.Search.{stored_hash, find_kernel_store_common_ancestor}
use bitcoin_wolfe.Sync.Request.{request_next_blocks, getheaders_from}
use bitcoin_wolfe.Sync.Headers.{handle_headers}
use bitcoin_wolfe.Sync.Inv.{handle_inv}

-- `retain(|h| *h != hash)`
unfoldable pub without_hash : Bytes → List Bytes → List Bytes
without_hash hash [] = []
without_hash hash (x ∷ xs) =
    ite (bytes_discrete x hash) (without_hash hash xs) (x ∷ without_hash hash xs)

module _ (M : Redb) (L : HeaderLib) (T : TxLib) (to_hex : Bytes → Bytes) where
  -- The end of `handle_block`: progress, more blocks, or synced.
  unfoldable pub finish_block :
      Kernel L T → SyncEngine M L T → ℕ → List Bytes → SyncEngine M L T × Response L T
  unfolding request_next_blocks
  finish_block k s₀ peer_id (hash ∷ rest) =
      let s = record s₀ { blocks_height = k.chain_height } in
      (
        if leb s.tip_height s.validated_height && leb s.tip_height k.chain_height
            then record s { state = synced }
            else s,
        none,
      )
  finish_block k s₀ peer_id [] =
      let s = record s₀ { blocks_height = k.chain_height } in
      if ltb s.validated_height s.tip_height then request_next_blocks M L T s peer_id else (
        if leb s.tip_height s.validated_height && leb s.tip_height k.chain_height
            then record s { state = synced }
            else s,
        none,
      )

  unfoldable pub reset_tip : SyncEngine M L T → ℕ → Option Bytes → SyncEngine M L T
  reset_tip s common none = s
  reset_tip s common (some hash) = record s { tip_height = common; tip_hash = hash }

  -- The first rejection of a batch: back to the common ancestor of kernel and store.
  unfoldable pub resync : ℕ → Kernel L T → SyncEngine M L T → SyncEngine M L T
  unfolding reset_tip find_kernel_store_common_ancestor
  resync now k s₀ =
      let common =
        find_kernel_store_common_ancestor M L to_hex k.get_block_at_height s₀.store
          k.chain_height in
      let s₁ = record s₀ {
        pending_blocks = [];
        validated_height = common;
        last_reorg_height = some (common % 2 ^ 32);
      } in
      let s₂ = reset_tip s₁ common (stored_hash M L s₁.store common) in
      record s₂ { state = syncing_headers; headers_height = s₂.tip_height; last_block_time = now }

  unfoldable pub after_resync :
      Kernel L T → SyncEngine M L T → ℕ → Option ℕ → SyncEngine M L T × Response L T
  unfolding getheaders_from finish_block
  after_resync k s peer_id (some peer) = (s, getheaders_from M L T s peer)
  after_resync k s peer_id none = finish_block k s peer_id s.pending_blocks

  -- `handle_block` after `validated_height += 1` for a rejected block.
  unfoldable pub rejected_block :
      ℕ → Kernel L T → SyncEngine M L T → ℕ → List Bytes → SyncEngine M L T × Response L T
  unfolding resync after_resync finish_block
  rejected_block now k s peer_id [] = finish_block k s peer_id []
  rejected_block now k s peer_id (hash ∷ rest) =
      let s' = resync now k s in after_resync k s' peer_id s'.sync_peer

  unfoldable pub on_verdict :
      ℕ
      → Kernel L T
      → SyncEngine M L T
      → ℕ
      → Block L T
      → Option ProcessBlockResult
      → SyncEngine M L T × Response L T
  unfolding finish_block rejected_block
  on_verdict now k s peer_id block none = (s, none)
  on_verdict now k s peer_id block (some new_block) =
      let s' = record s {
        validated_height = s.validated_height + 1;
        last_confirmed_txids = map T.compute_txid block.txdata;
        last_validated_block = some (block, (s.validated_height + 1) % 2 ^ 32);
      } in
      finish_block k s' peer_id s'.pending_blocks
  on_verdict now k s peer_id block (some duplicate) =
      let s' = record s { validated_height = s.validated_height + 1 } in
      finish_block k s' peer_id s'.pending_blocks
  on_verdict now k s peer_id block (some rejected) =
      rejected_block now k (record s { validated_height = s.validated_height + 1 }) peer_id
        s.pending_blocks

  unfoldable pub with_kernel :
      ℕ → SyncEngine M L T → ℕ → Block L T → Option (Kernel L T) → SyncEngine M L T × Response L T
  unfolding on_verdict
  with_kernel now s peer_id block none = (s, none)
  with_kernel now s peer_id block (some k) =
      on_verdict now k s peer_id block (k.validate_block block)

  -- A block hash is the hash of its header. Encoding a block into memory cannot fail.
  unfoldable pub handle_block :
      ℕ → SyncEngine M L T → ℕ → Block L T → SyncEngine M L T × Response L T
  unfolding with_kernel contains without_hash
  handle_block now s peer_id block =
      let hash = L.block_hash block.header in
      let s' = record s { pending_blocks = without_hash hash s.pending_blocks } in
      if contains s.pending_blocks hash
      then with_kernel now (record s' { last_block_time = now }) peer_id block s.consensus
      else (s', none)

  unfoldable pub handle_message :
      ℕ → SyncEngine M L T → ℕ → Message L T → SyncEngine M L T × Response L T
  unfolding handle_headers handle_inv handle_block
  handle_message now s peer_id (headers hs) = handle_headers M L T now s peer_id hs
  handle_message now s peer_id (inv items) = handle_inv M L T now s peer_id items
  handle_message now s peer_id (block_msg block) = handle_block now s peer_id block
  handle_message now s peer_id (tx t) = (
    record s {
      known_txids = T.compute_txid t ∷ s.known_txids;
      pending_txs = s.pending_txs ++ t ∷ [];
    },
    none,
  )
  handle_message now s peer_id _ = (s, none)
