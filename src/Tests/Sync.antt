-- ===== src/Tests/Sync.antt =====
-- The sync engine of crates/wolfe-node/src/sync.rs on concrete headers, peers and blocks.
use bitcoin_wolfe.Prelude.{◌⊎◌, ◌↔◌, ◌≡◌, ◌≢◌, refl, true, false, none, some, List, [], ◌∷◌, arith}
use bitcoin_wolfe.Bytes.{Bytes, to_be_bytes, to_be-injective}
use bitcoin_wolfe.Map.Assoc.{without}
use bitcoin_wolfe.Store.Error.{ok, copy_from_slice}
use bitcoin_wolfe.Store.Tables.{Tables}
use bitcoin_wolfe.Store.Headers.{get_by_height, next_back}
use bitcoin_wolfe.Store.Node.Batch.{Insertable}
use bitcoin_wolfe.Sync.State.{
  Inventory, SyncEngine, Kernel, Block, is_some, syncing_headers, waiting_for_peers, new_block,
  contains,
}
use bitcoin_wolfe.Sync.Search.{
  stored_hash, find_fork_point, locator_loop, with_genesis, build_locator,
}
use bitcoin_wolfe.Sync.Search.Fork.{IsHighest, find_fork_point-IsHighest}
use bitcoin_wolfe.Sync.Search.Locator.{build_locator-genesis}
use bitcoin_wolfe.Sync.Request.{request_next_blocks}
use bitcoin_wolfe.Sync.Request.Window.{Requested, request_next_blocks-Requested}
use bitcoin_wolfe.Sync.Peers.{try_select_sync_peer}
use bitcoin_wolfe.Sync.Peers.Choice.{ForHeaders, ForBlocks, NoPeer, try_select_sync_peer_lem}
use bitcoin_wolfe.Sync.Headers.{Scan, go, scan, start_scan, handle_headers}
use bitcoin_wolfe.Sync.Headers.Sound.{Chained, scan-Chained}
use bitcoin_wolfe.Sync.Headers.Extend.{number, Grown, handle_headers-Grown}
use bitcoin_wolfe.Sync.Headers.Rewind.{WentBack, invalid_header_rewinds}
use bitcoin_wolfe.Sync.Headers.Switch.{Switched, handle_headers-Switched}
use bitcoin_wolfe.Sync.Inv.{handle_inv}
use bitcoin_wolfe.Sync.Inv.Filter.{Filtered, handle_inv-Filtered}
use bitcoin_wolfe.Sync.Engine.{new}
use bitcoin_wolfe.Sync.Engine.Restart.{new-insert_headers_batch, new-reorganize}
use bitcoin_wolfe.Store.Node.{committed, reorganize, insert_headers_batch}
use bitcoin_wolfe.Store.Headers
use bitcoin_wolfe.Store.Headers.Lookup.{hash_at}
use bitcoin_wolfe.Store.Meta
use bitcoin_wolfe.Tests.Sample.{redb, links, link, Link, sync_txs}
use bitcoin_wolfe.Tests.Store.{
  program, three, three-IsIndexed, next_two, next_two-Insertable, absent,
}

-- The kernel takes every block as new.
abbrev kernel : Kernel links sync_txs
kernel = record {
  validate_block = λ b. some new_block;
  chain_height = 1;
  get_block_at_height = λ h. none;
}

-- At the tip 2 with block 3, downloading from peer 7; block 1 is validated.
abbrev engine : SyncEngine redb links sync_txs
engine = record {
  store = three;
  state = syncing_headers;
  headers_height = 2;
  blocks_height = 0;
  peer_count = 2;
  sync_peer = some 7;
  tip_height = 2;
  tip_hash = to_be_bytes 32 3;
  genesis_hash = to_be_bytes 32 1;
  consensus = some kernel;
  validated_height = 0;
  pending_blocks = to_be_bytes 32 2 ∷ [];
  last_confirmed_txids = [];
  last_validated_block = none;
  known_txids = [];
  pending_txs = [];
  peer_heights = (7, 9) ∷ (8, 4) ∷ [];
  last_block_time = 0;
  last_reorg_height = none;
}

abbrev two_links : List Link
two_links = link 4 3 ∷ link 5 4 ∷ []

abbrev end : Scan redb links sync_txs
end = record {
  engine = engine;
  validated = next_two;
  next_height = 5;
  prev_hash = to_be_bytes 32 5;
}

scanned : scan redb links sync_txs (start_scan redb links sync_txs engine) two_links ≡ go end
unfolding program scan
scanned = refl

scan-Chained_example : Chained redb links sync_txs end end.prev_hash
scan-Chained_example = scan-Chained redb links sync_txs engine two_links end scanned

handle_headers-Grown_example :
    Grown redb links sync_txs engine two_links
      (handle_headers redb links sync_txs 10 engine 7 two_links).0
unfolding number
handle_headers-Grown_example =
    handle_headers-Grown redb links sync_txs 10 engine 7 (link 4 3) (link 5 4 ∷ []) (omega arith)
      (refl, refl, (refl, refl, tt)) three-IsIndexed next_two-Insertable

forked : find_fork_point redb links three 2 (to_be_bytes 32 2) ≡ some 1
unfolding program find_fork_point stored_hash get_by_height copy_from_slice
forked = refl

differ : to_be_bytes 32 2 ≢ to_be_bytes 32 3
differ e = omega (arith, to_be-injective 32 2 3 (omega arith) (omega arith) e)

-- Block 200 has no proof of work and names block 2 as its parent.
invalid_header_rewinds_example :
    WentBack redb links sync_txs engine 1
      (handle_headers redb links sync_txs 10 engine 7 (link 200 2 ∷ [])).0
invalid_header_rewinds_example =
    invalid_header_rewinds redb links sync_txs 10 engine 7 (link 200 2) [] 1 (omega arith)
      three-IsIndexed differ forked refl

request_next_blocks-Requested_example :
    (hashes : List Bytes) × Requested redb links sync_txs engine 7 hashes
      (request_next_blocks redb links sync_txs engine 7).0
      (request_next_blocks redb links sync_txs engine 7).1
request_next_blocks-Requested_example = request_next_blocks-Requested redb links sync_txs engine 7

abbrev to_hex : Bytes → Bytes
to_hex b = b

abbrev block_2 : Block links sync_txs
block_2 = record { header = link 2 1; txdata = 21 ∷ 22 ∷ [] }

pending_2 : contains engine.pending_blocks (to_be_bytes 32 2) ≡ true
unfolding program contains
pending_2 = refl

pending_4 : contains engine.pending_blocks (to_be_bytes 32 4) ≡ false
unfolding program contains
pending_4 = refl

build_locator-genesis_example :
    (l : List Bytes) × (locator_loop redb links 3 three 2 1 [] ≡ some l)
    × (build_locator redb links three 2 (to_be_bytes 32 1)
        ≡ with_genesis redb links (to_be_bytes 32 1) l)
    × (next_back (build_locator redb links three 2 (to_be_bytes 32 1)) ≡ some (to_be_bytes 32 1))
build_locator-genesis_example = build_locator-genesis redb links three 2 (to_be_bytes 32 1)

abbrev idle : SyncEngine redb links sync_txs
idle = record engine { sync_peer = none; state = waiting_for_peers }

try_select_sync_peer_lem_example :
    ((is_some idle.sync_peer ≡ true)
      × (try_select_sync_peer redb links sync_txs idle ≡ (idle, none)))
    ⊎ ((idle.sync_peer ≡ none)
        × (ForHeaders redb links sync_txs idle (try_select_sync_peer redb links sync_txs idle)
            ⊎ (ForBlocks redb links sync_txs idle (try_select_sync_peer redb links sync_txs idle)
                ⊎ NoPeer redb links sync_txs idle (try_select_sync_peer redb links sync_txs idle))))
try_select_sync_peer_lem_example = try_select_sync_peer_lem redb links sync_txs idle

-- The peer 7 has the height 9.
selected : (try_select_sync_peer redb links sync_txs idle).0.sync_peer ≡ some 7
unfolding try_select_sync_peer
selected = refl

-- The tables after the rewind to height 1, and block 50 on top of block 2.
abbrev back : Tables redb
back = committed three (reorganize redb links three 2 1 [])

rewind : reorganize redb links three 2 1 [] ≡ ok (back, to_be_bytes 32 3 ∷ [])
unfolding program reorganize Headers.disconnect_range copy_from_slice without
    Headers.disconnect_loop Headers.get_by_height_write Headers.remove
rewind = refl

branch-Insertable : Insertable redb links back (number redb links sync_txs 2 (link 50 2 ∷ []))
unfolding program reorganize Headers.disconnect_range copy_from_slice number without
    Meta.set_sync_progress Headers.disconnect_loop Headers.get_by_height_write Headers.remove
branch-Insertable = (absent back.hash_to_height (to_be_bytes 32 50) (to_be_bytes 4 2) refl, tt)

handle_headers-Switched_example :
    Switched redb links sync_txs engine 1 back
      (link 50 2 ∷ [])
      (handle_headers redb links sync_txs 10 engine 7 (link 50 2 ∷ [])).0
handle_headers-Switched_example =
    handle_headers-Switched redb links sync_txs 10 engine 7 (link 50 2) [] 1 back
      (to_be_bytes 32 3 ∷ []) (omega arith) (omega arith) three-IsIndexed differ forked rewind
      (refl, refl, tt) branch-Insertable

at_1 : hash_at redb links three 1 ≡ some (to_be_bytes 32 2)
unfolding program
at_1 = refl

new-reorganize_example :
    ((new redb links sync_txs 20 back (to_be_bytes 32 1)).tip_height ≡ 1)
    × ((new redb links sync_txs 20 back (to_be_bytes 32 1)).tip_hash ≡ to_be_bytes 32 2)
new-reorganize_example =
    new-reorganize redb links sync_txs 20 2 1 (to_be_bytes 32 1) (to_be_bytes 32 2) three back
      (to_be_bytes 32 3 ∷ []) (omega arith) (omega arith) (omega arith) three-IsIndexed at_1 rewind

abbrev grown : Tables redb
grown = insert_headers_batch redb links three next_two

new-insert_headers_batch_example :
    (h : Link) × (next_back next_two ≡ some (h, 4))
    × ((new redb links sync_txs 20 grown (to_be_bytes 32 1)).tip_height ≡ 4)
    × ((new redb links sync_txs 20 grown (to_be_bytes 32 1)).tip_hash ≡ to_be_bytes 32 h.id)
new-insert_headers_batch_example =
    new-insert_headers_batch redb links sync_txs 20 3 (to_be_bytes 32 1) three (link 4 3, 3)
      ((link 5 4, 4) ∷ []) (omega arith) (omega arith) (refl, (refl, tt)) three-IsIndexed
      next_two-Insertable

abbrev announcements : List Inventory
announcements =
    Inventory.block (to_be_bytes 32 4)
    ∷ Inventory.transaction (to_be_bytes 32 30)
    ∷ Inventory.wtx (to_be_bytes 32 30)
    ∷ []

handle_inv-Filtered_example :
    (ids : List Bytes) × Filtered redb links sync_txs engine 8 announcements ids
      (handle_inv redb links sync_txs 10 engine 8 announcements).0
      (handle_inv redb links sync_txs 10 engine 8 announcements).1
handle_inv-Filtered_example = handle_inv-Filtered redb links sync_txs 10 engine 8 announcements

find_fork_point-IsHighest_example :
    (find_fork_point redb links three 2 (to_be_bytes 32 2) ≡ some 1)
    ↔ IsHighest redb links three 2 (to_be_bytes 32 2) 1
find_fork_point-IsHighest_example =
    find_fork_point-IsHighest redb links three 2 1 (to_be_bytes 32 2)
