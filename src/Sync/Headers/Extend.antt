-- ===== src/Sync/Headers/Extend.antt =====
-- `handle_headers` of crates/wolfe-node/src/sync.rs on headers that extend the tip.
use bitcoin_wolfe.Prelude.{
  ℕ, suc, ◌+◌, ◌-◌, ◌%◌, ◌^◌, ◌≤◌, ◌≡◌, refl, ap, ◌∙◌, true, ◌&&◌, List, [], ◌∷◌, ◌++◌, length,
  arith, if_pos, Bool-cases, inl, inr, leb, ltb, min,
}
use native.Mathlib.Nat.{add-zero}
use mathlib.Core.List.{append_assoc, append-nil}
use bitcoin_wolfe.Bytes.{Bytes}
use bitcoin_wolfe.Store.Tables.{HeaderLib, Redb, Tables}
use bitcoin_wolfe.Store.Headers.Index.{IsIndexed}
use bitcoin_wolfe.Store.Node.{insert_headers_batch}
use bitcoin_wolfe.Store.Node.Batch.{CountsUp, Insertable, Extended, insert_headers_batch-Extended}
use bitcoin_wolfe.Sync.State.{TxLib, SyncEngine, is_sync_peer, syncing_blocks}
use bitcoin_wolfe.Sync.Request.{request_next_blocks, send_request, collect}
use bitcoin_wolfe.Sync.Peers.{blocks_needed}
use bitcoin_wolfe.Sync.Headers.{
  Scan, go, scan_header, scan, start_scan, headers_done, store_headers, handle_headers,
}

module _ (M : Redb) (L : HeaderLib) (T : TxLib) where
  -- The headers chain from `prev`, each with its proof of work.
  abbrev pub Extends : Bytes → List L.Header → Type 0
  Extends prev [] = Unit
  Extends prev (h ∷ hs) =
      (L.prev_blockhash h ≡ prev) × (L.validate_pow h ≡ true) × Extends (L.block_hash h) hs

  unfoldable pub number : ℕ → List L.Header → List (L.Header × ℕ)
  number n [] = []
  number n (h ∷ hs) = (h, n % 2 ^ 32) ∷ number (n + 1) hs

  unfoldable pub last_hash : Bytes → List L.Header → Bytes
  last_hash prev [] = prev
  last_hash prev (h ∷ hs) = last_hash (L.block_hash h) hs

  scan_header-ok :
      (c : Scan M L T) (h : L.Header)
      → L.prev_blockhash h ≡ c.prev_hash
      → L.validate_pow h ≡ true
      → scan_header M L T c h
        ≡ go (record c {
          validated = c.validated ++ (h, c.next_height % 2 ^ 32) ∷ [];
          prev_hash = L.block_hash h;
          next_height = c.next_height + 1;
        })
  unfolding scan_header
  scan_header-ok c h p w = rw (if_pos _ p, w)

  pub scan-ok :
      (c : Scan M L T) (hs : List L.Header)
      → Extends c.prev_hash hs
      → scan M L T c hs
        ≡ go (record c {
          validated = c.validated ++ number c.next_height hs;
          prev_hash = last_hash c.prev_hash hs;
          next_height = c.next_height + length hs;
        })
  unfolding scan number last_hash
  scan-ok c [] x = simp (append-nil, add-zero)
  scan-ok c (h ∷ hs) (p, w, x) =
      let q : c.next_height + 1 + length hs ≡ c.next_height + suc (length hs) = omega arith in
      rw (scan_header-ok c h p w) (
        scan-ok
          (record c {
            validated = c.validated ++ (h, c.next_height % 2 ^ 32) ∷ [];
            prev_hash = L.block_hash h;
            next_height = c.next_height + 1;
          })
          hs x
        ∙ rw (append_assoc, q))

  -- What the answer to the peer leaves alone.
  pub record SameChain (s s' : SyncEngine M L T) : Type 0 where
    pub store : s'.store ≡ s.store
    pub tip_height : s'.tip_height ≡ s.tip_height
    pub tip_hash : s'.tip_hash ≡ s.tip_hash

  SameChain-refl : (s : SyncEngine M L T) → SameChain s s
  SameChain-refl s = record { store = refl; tip_height = refl; tip_hash = refl }

  send_request-SameChain :
      (s : SyncEngine M L T) (peer : ℕ) (hashes : List Bytes)
      → SameChain s (send_request M L T s peer hashes).0
  unfolding send_request
  send_request-SameChain s peer [] = record { store = refl; tip_height = refl; tip_hash = refl }
  send_request-SameChain s peer (h ∷ hs) = record {
    store = refl;
    tip_height = refl;
    tip_hash = refl;
  }

  pub request_next_blocks-SameChain :
      (s : SyncEngine M L T) (peer : ℕ) → SameChain s (request_next_blocks M L T s peer).0
  unfolding request_next_blocks
  request_next_blocks-SameChain s peer =
      let start = s.validated_height + 1 in
      elim (Bool-cases (ltb s.tip_height start)) [
        | inl e ↦ rw (e, request_next_blocks) (SameChain-refl s)
        | inr e ↦
            rw (e, request_next_blocks)
              (send_request-SameChain s peer
                (collect M L T (min (start + 128) (s.tip_height + 1) - start) s.store start))
      ]

  headers_done-SameChain :
      (s : SyncEngine M L T) (peer : ℕ) → SameChain s (headers_done M L T s peer).0
  unfolding headers_done
  headers_done-SameChain s peer = elim (Bool-cases (blocks_needed M L T s)) [
    | inl e ↦
        let r = request_next_blocks-SameChain (record s { state = syncing_blocks }) peer in
        rw (e, headers_done)
          (record { store = r.store; tip_height = r.tip_height; tip_hash = r.tip_hash })
    | inr e ↦ rw (e, headers_done) (record { store = refl; tip_height = refl; tip_hash = refl })
  ]

  -- The engine after phase 2.
  abbrev pub stored : Scan M L T → SyncEngine M L T
  stored c = record (c.engine) {
    store = insert_headers_batch M L c.engine.store c.validated;
    tip_height = c.next_height - 1;
    tip_hash = c.prev_hash;
    headers_height = c.next_height - 1;
  }

  pub store_headers-SameChain :
      (peer count : ℕ) (c : Scan M L T)
      → SameChain (stored c) (store_headers M L T peer count (go c)).0
  unfolding store_headers
  store_headers-SameChain peer count c =
      let mine = is_sync_peer c.engine.sync_peer peer in
      elim (Bool-cases (leb 2000 count && mine)) [
        | inl e ↦ rw (e, store_headers) (SameChain-refl (stored c))
        | inr e ↦ elim (Bool-cases mine) [
          | inl m ↦ rw (e, store_headers) (rw m (headers_done-SameChain (stored c) peer))
          | inr m ↦ rw (e, store_headers) (rw m (SameChain-refl (stored c)))
        ]
      ]

  number-CountsUp :
      (start : ℕ) (hs : List L.Header)
      → start + length hs ≤ 2 ^ 32
      → CountsUp M L start (number start hs)
  unfolding number
  number-CountsUp start [] small = tt
  number-CountsUp start (h ∷ hs) small = (omega arith, number-CountsUp (start + 1) hs (omega arith))

  length-number : (start : ℕ) (hs : List L.Header) → length (number start hs) ≡ length hs
  unfolding number
  length-number start [] = refl
  length-number start (h ∷ hs) = ap suc (length-number (start + 1) hs)

  pub batch-Extended :
      (t : Tables M) (start : ℕ) (h : L.Header) (hs : List L.Header)
      → start + length (h ∷ hs) ≤ 2 ^ 32
      → IsIndexed M L t
      → Insertable M L t (number start (h ∷ hs))
      → Extended M L t start
          (number start (h ∷ hs))
          (insert_headers_batch M L t (number start (h ∷ hs)))
  batch-Extended t start h hs small v f =
      unfold number in
      insert_headers_batch-Extended M L t start (h, start % 2 ^ 32) (number (start + 1) hs)
        (omega (arith, length-number (start + 1) hs))
        (omega arith, number-CountsUp (start + 1) hs (omega arith)) v f

  -- The state after headers that extend the tip.
  pub record Grown (s : SyncEngine M L T) (hs : List L.Header) (s' : SyncEngine M L T)
      : Type 0 where
    pub tip_height : s'.tip_height ≡ s.tip_height + length hs
    pub tip_hash : s'.tip_hash ≡ last_hash s.tip_hash hs
    pub extended : Extended M L s.store (s.tip_height + 1) (number (s.tip_height + 1) hs) s'.store

  -- On indexed tables, headers that chain from the tip, each with its proof of work, each new or
  -- stored at its height already, are all stored at the heights that follow the tip, within 32 bits,
  -- and the tip moves to the last of them; the older heights keep their blocks and the indexes stay
  -- sound.
  pub handle_headers-Grown :
      (now : ℕ) (s : SyncEngine M L T) (peer : ℕ) (h : L.Header) (hs : List L.Header)
      → s.tip_height + 1 + length (h ∷ hs) ≤ 2 ^ 32
      → Extends s.tip_hash (h ∷ hs)
      → IsIndexed M L s.store
      → Insertable M L s.store (number (s.tip_height + 1) (h ∷ hs))
      → Grown s (h ∷ hs) (handle_headers M L T now s peer (h ∷ hs)).0
  unfolding handle_headers
  handle_headers-Grown now s peer h hs small x v f =
      let c₀ = start_scan M L T (record s { last_block_time = now }) in
      let c = record c₀ {
        validated = number (s.tip_height + 1) (h ∷ hs);
        prev_hash = last_hash s.tip_hash (h ∷ hs);
        next_height = s.tip_height + 1 + length (h ∷ hs);
      } in
      let same = store_headers-SameChain peer (length (h ∷ hs)) c in
      rw (scan-ok c₀ (h ∷ hs) x) (record {
        tip_height = same.tip_height ∙ omega arith;
        tip_hash = same.tip_hash;
        extended = rw same.store (batch-Extended s.store (s.tip_height + 1) h hs small v f);
      })
