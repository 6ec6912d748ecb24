-- ===== src/Sync/Headers/Rewind.antt =====
-- The order of the checks in `handle_headers` of crates/wolfe-node/src/sync.rs: the rewind to a fork
-- point comes before the proof of work of the header that asks for it.
use bitcoin_wolfe.Prelude.{
  ℕ, ◌+◌, ◌%◌, ◌^◌, ◌<◌, ◌≤◌, ◌≡◌, ◌≢◌, refl, false, none, some, List, ◌∷◌, arith, if_neg,
}
use bitcoin_wolfe.Store.Tables.{HeaderLib, Redb}
use bitcoin_wolfe.Store.Headers.Index.{IsIndexed}
use bitcoin_wolfe.Store.Headers.Lookup.{hash_at}
use bitcoin_wolfe.Store.Node.Reorg.{reorganize_rewinds}
use bitcoin_wolfe.Sync.State.{TxLib, SyncEngine, waiting_for_peers}
use bitcoin_wolfe.Sync.Search.{find_fork_point}
use bitcoin_wolfe.Sync.Search.Fork.{find_fork_point-found}
use bitcoin_wolfe.Sync.Headers.{at_fork, handle_headers, check_pow}

module _ (M : Redb) (L : HeaderLib) (T : TxLib) where
  -- The engine has gone back to `fork`, and has dropped what was above it.
  pub record WentBack (s : SyncEngine M L T) (fork : ℕ) (s' : SyncEngine M L T) : Type 0 where
    pub tip_height : s'.tip_height ≡ fork
    pub dropped : (j : ℕ) → fork < j → j ≤ s.tip_height → hash_at M L s'.store j ≡ none
    pub no_peer : s'.sync_peer ≡ none
    pub state : s'.state ≡ waiting_for_peers

  -- A message whose first header has no proof of work, and names as its parent a block other than
  -- the tip that the engine finds at `fork`, leaves the engine at `fork`: every header above it is
  -- dropped, and there is no sync peer. The tables are indexed.
  pub invalid_header_rewinds :
      (now : ℕ) (s : SyncEngine M L T) (peer : ℕ) (h : L.Header) (hs : List L.Header) (fork : ℕ)
      → s.tip_height + 1 < 2 ^ 32
      → IsIndexed M L s.store
      → L.prev_blockhash h ≢ s.tip_hash
      → find_fork_point M L s.store s.tip_height (L.prev_blockhash h) ≡ some fork
      → L.validate_pow h ≡ false
      → WentBack s fork (handle_headers M L T now s peer (h ∷ hs)).0
  unfolding handle_headers
  invalid_header_rewinds now s peer h hs fork small v ne found bad =
      let (at, low, near) =
        find_fork_point-found M L s.store s.tip_height fork (L.prev_blockhash h) found in
      let (t', run, rewind) = reorganize_rewinds M L s.store s.tip_height fork small low v in
      let e₁ : s.tip_height % 2 ^ 32 ≡ s.tip_height = omega arith in
      let e₂ : fork % 2 ^ 32 ≡ fork = omega arith in
      rw (if_neg _ ne, found, at_fork)
        (rw (e₁, e₂)
          (rw run (
            rw (bad, check_pow)
              (record {
                tip_height = refl;
                dropped = λ j a b. rewind.heights.gone j (omega arith) (omega arith);
                no_peer = refl;
                state = refl;
              }))))
