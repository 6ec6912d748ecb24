-- ===== src/Sync/Engine/Restart.antt =====
-- What `SyncEngine::new` of crates/wolfe-node/src/sync.rs takes up from the store.
use bitcoin_wolfe.Prelude.{
  ℕ, ◌+◌, ◌-◌, ◌^◌, ◌<◌, ◌≤◌, ◌≡◌, sym, ap, ◌∙◌, inl, some, List, [], ◌∷◌, length, arith,
}
use bitcoin_wolfe.Bytes.{Bytes}
use bitcoin_wolfe.Store.Error.{ok}
use bitcoin_wolfe.Store.Tables.{HeaderLib, Redb, Tables}
use bitcoin_wolfe.Store.Headers.{next_back}
use bitcoin_wolfe.Store.Headers.Index.{IsIndexed}
use bitcoin_wolfe.Store.Headers.Lookup.{hash_at}
use bitcoin_wolfe.Store.Meta.{sync_height}
use bitcoin_wolfe.Store.Node.{insert_headers_batch, reorganize}
use bitcoin_wolfe.Store.Node.Batch.{
  CountsUp, Insertable, Connected, insert_headers_batch-Extended, last_height, next_back-cons,
}
use bitcoin_wolfe.Store.Node.Reorg.{reorganize_rewinds}
use bitcoin_wolfe.Sync.State.{TxLib}
use bitcoin_wolfe.Sync.Search.Fork.{stored_hash-eq-hash_at}
use bitcoin_wolfe.Sync.Engine.{stored_tip, new, unwrap_or}

module _ (M : Redb) (L : HeaderLib) (T : TxLib) where
  -- The stored tip of indexed tables.
  stored_tip_lem :
      (t : Tables M) (genesis hash : Bytes) (height : ℕ)
      → IsIndexed M L t
      → 0 < height
      → height < 2 ^ 32
      → sync_height M t ≡ some height
      → hash_at M L t height ≡ some hash
      → stored_tip M L T t genesis ≡ (height, hash)
  unfolding stored_tip unwrap_or
  stored_tip_lem t genesis hash height v positive small synced at =
      ground (arith, synced, stored_hash-eq-hash_at M L t height small v, at)

  last-Connected :
      (t : Tables M) (l : List (L.Header × ℕ)) (h : L.Header) (n : ℕ)
      → Connected M L t l
      → next_back l ≡ some (h, n)
      → hash_at M L t n ≡ some (L.block_hash h)
  unfolding next_back
  last-Connected t [] h n c e = absurd (ground (arith, e))
  last-Connected t ((g, k) ∷ []) h n (here, c) e = cc
  last-Connected t ((g, k) ∷ y ∷ l) h n (here, c) e =
      last-Connected t (y ∷ l) h n c (sym (next_back-cons M L (g, k) y l) ∙ e)

  -- On an engine that is opened after a batch which counts up from `start`, above genesis and within
  -- 32 bits, the tip is the last header of the batch, with its height. The tables were indexed, and
  -- each header was new or stored at its height already.
  pub new-insert_headers_batch :
      (now start : ℕ) (genesis : Bytes) (t : Tables M) (x : L.Header × ℕ) (l : List (L.Header × ℕ))
      → 0 < start
      → start + length (x ∷ l) ≤ 2 ^ 32
      → CountsUp M L start (x ∷ l)
      → IsIndexed M L t
      → Insertable M L t (x ∷ l)
      → (h : L.Header) × (next_back (x ∷ l) ≡ some (h, start + length l))
        × ((new M L T now (insert_headers_batch M L t (x ∷ l)) genesis).tip_height
            ≡ start + length l)
        × ((new M L T now (insert_headers_batch M L t (x ∷ l)) genesis).tip_hash ≡ L.block_hash h)
  unfolding new
  new-insert_headers_batch now start genesis t x l positive small c v f =
      let r = insert_headers_batch-Extended M L t start x l small c v f in
      let (h, last) = last_height M L start x l c in
      let t' = insert_headers_batch M L t (x ∷ l) in
      let e : start + length (x ∷ l) - 1 ≡ start + length l = omega arith in
      let tip =
        stored_tip_lem t' genesis (L.block_hash h) (start + length l) r.indexed (omega arith)
          (omega arith) (r.progress ∙ rw e)
          (last-Connected t' (x ∷ l) h (start + length l) r.connected last) in
      (h, last, ap (λ z. z.0) tip, ap (λ z. z.1) tip)

  -- On an engine that is opened after a rewind to a fork point above genesis, the tip is the fork
  -- point, with the hash that was stored there. The tables were indexed, and the heights are 32-bit.
  pub new-reorganize :
      (now current fork : ℕ) (genesis hash : Bytes) (t t' : Tables M) (gone : List Bytes)
      → 0 < fork
      → fork ≤ current
      → current + 1 < 2 ^ 32
      → IsIndexed M L t
      → hash_at M L t fork ≡ some hash
      → reorganize M L t current fork [] ≡ ok (t', gone)
      → ((new M L T now t' genesis).tip_height ≡ fork)
        × ((new M L T now t' genesis).tip_hash ≡ hash)
  unfolding new
  new-reorganize now current fork genesis hash t t' gone positive low small v at run =
      let (u, again, r) = reorganize_rewinds M L t current fork small low v in
      let same : u ≡ t' = ground (arith, again, run) in
      let tip =
        stored_tip_lem u genesis hash fork r.heights.indexed positive (omega arith) r.progress
          (r.heights.kept fork (omega arith) (inl (omega arith)) ∙ at) in
      rw (← same) (ap (λ z. z.0) tip, ap (λ z. z.1) tip)
