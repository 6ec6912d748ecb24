-- ===== src/Sync/Engine.antt =====
-- The engine of crates/wolfe-node/src/sync.rs from the outside: `new`, `set_consensus`, and the
-- `take_` functions through which the main loop collects results.
pub mod Restart
use bitcoin_wolfe.Prelude.{ℕ, Option, none, some, List, [], ltb, if◌then◌else◌}
use bitcoin_wolfe.Bytes.{Bytes}
use bitcoin_wolfe.Store.Tables.{HeaderLib, Redb, Tables}
use bitcoin_wolfe.Store.Meta.{sync_height}
use bitcoin_wolfe.Sync.State.{SyncEngine, TxLib, Kernel, Block, waiting_for_peers}
use bitcoin_wolfe.Sync.Search.{stored_hash}

unfoldable pub unwrap_or {ℓ} : {A : Type ℓ} → A → Option A → A
unwrap_or a none = a
unwrap_or a (some x) = x

module _ (M : Redb) (L : HeaderLib) (T : TxLib) where
  -- The stored tip: its height, and the hash of the header at that height.
  unfoldable pub stored_tip : Tables M → Bytes → ℕ × Bytes
  unfolding unwrap_or
  stored_tip store genesis_hash =
      let height = unwrap_or 0 (sync_height M store) in
      (
        height,
        if ltb 0 height
            then unwrap_or genesis_hash (stored_hash M L store height)
            else genesis_hash,
      )

  unfoldable pub new : ℕ → Tables M → Bytes → SyncEngine M L T
  unfolding stored_tip
  new now store genesis_hash =
      let tip = stored_tip store genesis_hash in
      record {
        store = store;
        state = waiting_for_peers;
        headers_height = 0;
        blocks_height = 0;
        peer_count = 0;
        sync_peer = none;
        tip_height = tip.0;
        tip_hash = tip.1;
        genesis_hash = genesis_hash;
        consensus = none;
        validated_height = 0;
        pending_blocks = [];
        last_confirmed_txids = [];
        last_validated_block = none;
        known_txids = [];
        pending_txs = [];
        peer_heights = [];
        last_block_time = now;
        last_reorg_height = none;
      }

  unfoldable pub set_consensus : SyncEngine M L T → Kernel L T → SyncEngine M L T
  set_consensus s engine = record s {
    validated_height =
        if ltb 0 engine.chain_height then engine.chain_height else s.validated_height;
    consensus = some engine;
  }

  unfoldable pub take_confirmed_txids : SyncEngine M L T → SyncEngine M L T × List Bytes
  take_confirmed_txids s = (record s { last_confirmed_txids = [] }, s.last_confirmed_txids)

  unfoldable pub take_validated_block : SyncEngine M L T → SyncEngine M L T × Option (Block L T × ℕ)
  take_validated_block s = (record s { last_validated_block = none }, s.last_validated_block)

  unfoldable pub take_pending_txs : SyncEngine M L T → SyncEngine M L T × List T.Tx
  take_pending_txs s = (record s { pending_txs = [] }, s.pending_txs)

  unfoldable pub take_reorg_height : SyncEngine M L T → SyncEngine M L T × Option ℕ
  take_reorg_height s = (record s { last_reorg_height = none }, s.last_reorg_height)
