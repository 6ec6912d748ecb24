-- ===== src/Sync/Peers.antt =====
-- Peers coming and going in crates/wolfe-node/src/sync.rs, and the choice of the sync peer.
pub mod Choice
use bitcoin_wolfe.Prelude.{
  ℕ, ◌+◌, ◌-◌, ◌%◌, ◌^◌, Bool, not, true, false, ◌&&◌, Option, none, some, List, [], ◌∷◌, ◌++◌, ltb,
  leb, ◌==◌, if◌then◌else◌,
}
use bitcoin_wolfe.Store.Tables.{HeaderLib, Redb}
use bitcoin_wolfe.Sync.State.{
  SyncEngine, TxLib, Response, ℤ, pos, negsuc, is_some, is_sync_peer, waiting_for_peers,
  syncing_headers, syncing_blocks,
}
use bitcoin_wolfe.Sync.Request.{request_next_blocks, getheaders_from}

-- `HashMap::insert` and `HashMap::remove` on the peers' heights.
unfoldable pub set_height : ℕ → ℕ → List (ℕ × ℕ) → List (ℕ × ℕ)
set_height peer height [] = (peer, height) ∷ []
set_height peer height ((p, h) ∷ rest) =
    if p == peer then (peer, height) ∷ rest else (p, h) ∷ set_height peer height rest

unfoldable pub drop_peer : ℕ → List (ℕ × ℕ) → List (ℕ × ℕ)
drop_peer peer [] = []
drop_peer peer ((p, h) ∷ rest) =
    if p == peer then drop_peer peer rest else (p, h) ∷ drop_peer peer rest

-- `iter().filter(height > floor).max_by_key(height)`, which takes the last of several maxima.
unfoldable pub highest : ℕ → List (ℕ × ℕ) → Option (ℕ × ℕ)
highest floor [] = none
highest floor ((p, h) ∷ rest) = elim (highest floor rest) [
  | none ↦ if ltb floor h then some (p, h) else none
  | some (q, k) ↦ if ltb k h then some (p, h) else some (q, k)
]

-- A negative height counts as 0.
unfoldable pub sanitize : ℤ → ℕ
sanitize (pos n) = n
sanitize (negsuc n) = 0

module _ (M : Redb) (L : HeaderLib) (T : TxLib) where
  -- `self.consensus.is_some() && self.validated_height < self.tip_height`
  unfoldable pub blocks_needed : SyncEngine M L T → Bool
  unfolding is_some
  blocks_needed s = is_some s.consensus && ltb s.validated_height s.tip_height

  unfoldable pub claim_headers : SyncEngine M L T → ℕ → SyncEngine M L T × Response L T
  unfolding getheaders_from
  claim_headers s peer_id =
      let s' = record s { sync_peer = some peer_id; state = syncing_headers } in
      (s', getheaders_from M L T s' peer_id)

  unfoldable pub claim_blocks : SyncEngine M L T → ℕ → SyncEngine M L T × Response L T
  unfolding request_next_blocks
  claim_blocks s peer_id =
      request_next_blocks M L T (record s { sync_peer = some peer_id; state = syncing_blocks })
        peer_id

  -- The response is the message alone in the source; here it stays beside its peer.
  unfoldable pub on_peer_connected : SyncEngine M L T → ℕ → ℤ → SyncEngine M L T × Response L T
  unfolding claim_headers claim_blocks blocks_needed set_height sanitize is_some
  on_peer_connected s₀ peer_id start_height =
      let s₁ = record s₀ { peer_count = (s₀.peer_count + 1) % 2 ^ 64 } in
      let peer_height = sanitize start_height in
      let s = record s₁ { peer_heights = set_height peer_id peer_height s₁.peer_heights } in
      if ltb 2000000 peer_height
      then (s₁, none)
      else if not (is_some s.sync_peer) && ltb s.tip_height peer_height
      then claim_headers s peer_id
      else if not (is_some s.sync_peer) && ltb s.validated_height peer_height && blocks_needed s
      then claim_blocks s peer_id
      else (s, none)

  unfoldable pub on_peer_disconnected : SyncEngine M L T → ℕ → SyncEngine M L T
  unfolding drop_peer is_sync_peer
  on_peer_disconnected s₀ peer_id =
      let s = record s₀ {
        peer_count = (s₀.peer_count + 2 ^ 64 - 1) % 2 ^ 64;
        peer_heights = drop_peer peer_id s₀.peer_heights;
      } in
      if is_sync_peer s.sync_peer peer_id then record s { sync_peer = none } else s

  unfoldable pub select_for_blocks :
      SyncEngine M L T → Option (ℕ × ℕ) → SyncEngine M L T × Response L T
  unfolding claim_blocks
  select_for_blocks s none = (s, none)
  select_for_blocks s (some (peer_id, height)) = claim_blocks s peer_id

  unfoldable pub select_from : SyncEngine M L T → Option (ℕ × ℕ) → SyncEngine M L T × Response L T
  unfolding claim_headers select_for_blocks blocks_needed highest
  select_from s (some (peer_id, height)) = claim_headers s peer_id
  select_from s none =
      if blocks_needed s
      then select_for_blocks s (highest s.validated_height s.peer_heights)
      else (s, none)

  unfoldable pub try_select_sync_peer : SyncEngine M L T → SyncEngine M L T × Response L T
  unfolding select_from is_some
  try_select_sync_peer s =
      if is_some s.sync_peer then (s, none) else select_from s (highest s.tip_height s.peer_heights)
