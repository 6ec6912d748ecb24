-- ===== src/Sync/Headers.antt =====
-- `handle_headers` of crates/wolfe-node/src/sync.rs.
pub mod Sound
pub mod Extend
pub mod Rewind
pub mod Switch
use bitcoin_wolfe.Prelude.{
  ℕ, ◌+◌, ◌-◌, ◌%◌, ◌^◌, min, Bool, not, true, false, ◌&&◌, Option, none, some, List, [], ◌∷◌, ◌++◌,
  ite, ltb, leb, if◌then◌else◌, length,
}
use bitcoin_wolfe.Bytes.{Bytes, bytes_discrete}
use bitcoin_wolfe.Store.Error.{StoreResult, ok, err, panic}
use bitcoin_wolfe.Store.Tables.{HeaderLib, Redb, Tables}
use bitcoin_wolfe.Store.Node.{reorganize, insert_headers_batch}
use bitcoin_wolfe.Sync.State.{
  SyncEngine, TxLib, Response, is_sync_peer, waiting_for_peers, syncing_blocks, synced,
}
use bitcoin_wolfe.Sync.Search.{find_fork_point}
use bitcoin_wolfe.Sync.Request.{request_next_blocks, getheaders_from}
use bitcoin_wolfe.Sync.Peers.{blocks_needed}

module _ (M : Redb) (L : HeaderLib) (T : TxLib) where
  -- The variables of the loop of phase 1: the engine, `validated`, `next_height`, `prev_hash`.
  pub record Scan : Type 0 where
    pub engine : SyncEngine M L T
    pub validated : List (L.Header × ℕ)
    pub next_height : ℕ
    pub prev_hash : Bytes

  -- An early return keeps the engine as it is then.
  pub data Outcome : Type 0 where
    go : Scan → Outcome
    stop : SyncEngine M L T → Outcome

  abbrev pub then_scan : Outcome → (Scan → Outcome) → Outcome
  then_scan (go c) f = f c
  then_scan (stop s) f = stop s

  -- `self.sync_peer = None; self.progress.state = WaitingForPeers; return None`
  unfoldable pub give_up : SyncEngine M L T → Outcome
  give_up s = stop (record s { sync_peer = none; state = waiting_for_peers })

  -- A panic of the store is treated as an error of it; on indexed tables there is neither.
  unfoldable pub rewound : Scan → ℕ → Bytes → StoreResult (Tables M × List Bytes) → Outcome
  unfolding give_up
  rewound c fork_h prev_blockhash (ok (store', disconnected)) =
      let s = c.engine in
      go (record {
        engine = record s {
          store = store';
          tip_height = fork_h;
          tip_hash = prev_blockhash;
          validated_height = if ltb fork_h s.validated_height then fork_h else s.validated_height;
          last_reorg_height = some (fork_h % 2 ^ 32);
        };
        validated = [];
        next_height = fork_h + 1;
        prev_hash = c.prev_hash;
      })
  rewound c fork_h prev_blockhash _ = give_up c.engine

  unfoldable pub at_fork : Scan → Bytes → Option ℕ → Outcome
  unfolding rewound
  at_fork c prev_blockhash none = give_up c.engine
  at_fork c prev_blockhash (some fork_h) =
      rewound c fork_h prev_blockhash
        (reorganize M L c.engine.store (c.engine.tip_height % 2 ^ 32) (fork_h % 2 ^ 32) [])

  -- Chain continuity, with the rewind to a fork point.
  unfoldable pub check_link : Scan → L.Header → Outcome
  unfolding at_fork find_fork_point
  check_link c header =
      let prev = L.prev_blockhash header in
      ite (bytes_discrete prev c.prev_hash) (go c)
        (at_fork c prev (find_fork_point M L c.engine.store c.engine.tip_height prev))

  -- Proof of work, and the push.
  unfoldable pub check_pow : L.Header → Scan → Outcome
  unfolding give_up
  check_pow header c =
      if L.validate_pow header
      then go (record c {
        validated = c.validated ++ (header, c.next_height % 2 ^ 32) ∷ [];
        prev_hash = L.block_hash header;
        next_height = c.next_height + 1;
      })
      else give_up c.engine

  unfoldable pub scan_header : Scan → L.Header → Outcome
  unfolding check_link check_pow
  scan_header c header = then_scan (check_link c header) (check_pow header)

  unfoldable pub scan : Scan → List L.Header → Outcome
  unfolding scan_header
  scan c [] = go c
  scan c (header ∷ rest) = then_scan (scan_header c header) (λ c'. scan c' rest)

  -- Caught up with the headers of the sync peer.
  unfoldable pub headers_done : SyncEngine M L T → ℕ → SyncEngine M L T × Response L T
  unfolding blocks_needed request_next_blocks
  headers_done s peer_id =
      if blocks_needed M L T s
      then request_next_blocks M L T (record s { state = syncing_blocks }) peer_id
      else (record s { state = synced }, none)

  -- Phase 2 and what follows it; `count` is the number of headers in the message.
  unfoldable pub store_headers : ℕ → ℕ → Outcome → SyncEngine M L T × Response L T
  unfolding headers_done is_sync_peer getheaders_from
  store_headers peer_id count (stop s) = (s, none)
  store_headers peer_id count (go c) =
      let s = record (c.engine) {
        store = insert_headers_batch M L c.engine.store c.validated;
        tip_height = c.next_height - 1;
        tip_hash = c.prev_hash;
        headers_height = c.next_height - 1;
      } in
      if leb 2000 count && is_sync_peer s.sync_peer peer_id
      then (s, getheaders_from M L T s peer_id)
      else if is_sync_peer s.sync_peer peer_id
      then headers_done s peer_id
      else (s, none)

  abbrev pub start_scan : SyncEngine M L T → Scan
  start_scan s = record {
    engine = s;
    validated = [];
    next_height = s.tip_height + 1;
    prev_hash = s.tip_hash;
  }

  unfoldable pub handle_headers :
      ℕ → SyncEngine M L T → ℕ → List L.Header → SyncEngine M L T × Response L T
  unfolding scan store_headers headers_done is_sync_peer
  handle_headers now s peer_id [] =
      if is_sync_peer s.sync_peer peer_id
      then headers_done (record s { headers_height = s.tip_height }) peer_id
      else (s, none)
  handle_headers now s peer_id (header ∷ rest) =
      store_headers peer_id (length (header ∷ rest))
        (scan (start_scan (record s { last_block_time = now })) (header ∷ rest))
