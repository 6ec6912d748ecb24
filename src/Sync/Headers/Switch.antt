-- ===== src/Sync/Headers/Switch.antt =====
-- `handle_headers` of crates/wolfe-node/src/sync.rs on headers that branch off below the tip.
use bitcoin_wolfe.Prelude.{
  ℕ, ◌+◌, ◌%◌, ◌^◌, ◌<◌, ◌≤◌, ◌≡◌, ◌≢◌, refl, ◌∙◌, true, some, List, [], ◌∷◌, arith, ltb,
  if◌then◌else◌, if_neg, length,
}
use bitcoin_wolfe.Bytes.{Bytes}
use bitcoin_wolfe.Store.Error.{ok}
use bitcoin_wolfe.Store.Tables.{HeaderLib, Redb, Tables}
use bitcoin_wolfe.Store.Headers.Index.{IsIndexed}
use bitcoin_wolfe.Store.Node.{reorganize}
use bitcoin_wolfe.Store.Node.Batch.{Insertable, Extended}
use bitcoin_wolfe.Store.Node.Reorg.{Rewound, reorganize_rewinds}
use bitcoin_wolfe.Sync.State.{TxLib, SyncEngine}
use bitcoin_wolfe.Sync.Search.{find_fork_point}
use bitcoin_wolfe.Sync.Search.Fork.{find_fork_point-found}
use bitcoin_wolfe.Sync.Headers.{
  Scan, go, handle_headers, start_scan, scan, scan_header, check_link, check_pow, at_fork, rewound,
}
use bitcoin_wolfe.Sync.Headers.Extend.{
  Extends, number, last_hash, scan-ok, store_headers-SameChain, batch-Extended,
}

module _ (M : Redb) (L : HeaderLib) (T : TxLib) where
  -- The engine on the other branch: the tables are those of the rewind to `fork`, extended.
  pub record Switched (s : SyncEngine M L T) (fork : ℕ) (t' : Tables M) (hs : List L.Header)
      (s' : SyncEngine M L T) : Type 0 where
    pub rewind : Rewound M L s.store s.tip_height fork t'
    pub tip_height : s'.tip_height ≡ fork + length hs
    pub tip_hash : s'.tip_hash ≡ last_hash M L T s.tip_hash hs
    pub extended : Extended M L t' (fork + 1) (number M L T (fork + 1) hs) s'.store

  -- The loop's variables after the rewind.
  abbrev at_branch : Scan M L T → ℕ → Bytes → Tables M → Scan M L T
  at_branch c fork prev t' = record {
    engine = record (c.engine) {
      store = t';
      tip_height = fork;
      tip_hash = prev;
      validated_height =
          if ltb fork c.engine.validated_height then fork else c.engine.validated_height;
      last_reorg_height = some (fork % 2 ^ 32);
    };
    validated = [];
    next_height = fork + 1;
    prev_hash = c.prev_hash;
  }

  check_link-branch :
      (c : Scan M L T) (h : L.Header) (fork : ℕ) (t' : Tables M) (gone : List Bytes)
      → c.engine.tip_height < 2 ^ 32
      → fork < 2 ^ 32
      → L.prev_blockhash h ≢ c.prev_hash
      → find_fork_point M L c.engine.store c.engine.tip_height (L.prev_blockhash h) ≡ some fork
      → reorganize M L c.engine.store c.engine.tip_height fork [] ≡ ok (t', gone)
      → check_link M L T c h ≡ go (at_branch c fork (L.prev_blockhash h) t')
  unfolding check_link
  check_link-branch c h fork t' gone small₁ small₂ ne found run =
      let e₁ : c.engine.tip_height % 2 ^ 32 ≡ c.engine.tip_height = omega arith in
      let e₂ : fork % 2 ^ 32 ≡ fork = omega arith in
      rw (if_neg _ ne, found, at_fork) (rw (e₁) (rw (e₂) (rw (run, rewound) (rw e₂ refl))))

  scan-branch :
      (c : Scan M L T) (h : L.Header) (hs : List L.Header) (fork : ℕ) (t' : Tables M)
      → check_link M L T c h ≡ go (at_branch c fork (L.prev_blockhash h) t')
      → L.validate_pow h ≡ true
      → Extends M L T (L.block_hash h) hs
      → scan M L T c (h ∷ hs)
        ≡ go (record (at_branch c fork (L.prev_blockhash h) t') {
          validated = number M L T (fork + 1) (h ∷ hs);
          prev_hash = last_hash M L T (L.block_hash h) hs;
          next_height = fork + 1 + length (h ∷ hs);
        })
  unfolding scan scan_header number
  scan-branch c h hs fork t' link w x =
      let b = at_branch c fork (L.prev_blockhash h) t' in
      let q : fork + 1 + 1 + length hs ≡ fork + 1 + length (h ∷ hs) = omega arith in
      rw (link) (
        rw (w, check_pow)
          (scan-ok M L T
              (record b {
                validated = (h, (fork + 1) % 2 ^ 32) ∷ [];
                prev_hash = L.block_hash h;
                next_height = fork + 1 + 1;
              })
              hs x
            ∙ rw q))

  -- On indexed tables, headers with proof of work that branch off at a fork point, whose parent is
  -- not the tip, each new or stored at its height already, replace what is above it, whether their branch is longer or shorter: the store is rewound to the fork point and then
  -- extended by the headers, and the tip is the last of them, at the height of the fork point plus
  -- their number.
  pub handle_headers-Switched :
      (now : ℕ) (s : SyncEngine M L T) (peer : ℕ) (h : L.Header) (hs : List L.Header) (fork : ℕ)
      (t' : Tables M) (gone : List Bytes)
      → s.tip_height + 1 < 2 ^ 32
      → fork + 1 + length (h ∷ hs) ≤ 2 ^ 32
      → IsIndexed M L s.store
      → L.prev_blockhash h ≢ s.tip_hash
      → find_fork_point M L s.store s.tip_height (L.prev_blockhash h) ≡ some fork
      → reorganize M L s.store s.tip_height fork [] ≡ ok (t', gone)
      → Extends M L T (L.prev_blockhash h) (h ∷ hs)
      → Insertable M L t' (number M L T (fork + 1) (h ∷ hs))
      → Switched s fork t' (h ∷ hs) (handle_headers M L T now s peer (h ∷ hs)).0
  unfolding handle_headers last_hash
  handle_headers-Switched now s peer h hs fork t' gone small fits v ne found run (_, w, x) f =
      let (_, low, _) =
        find_fork_point-found M L s.store s.tip_height fork (L.prev_blockhash h) found in
      let (u, again, r) = reorganize_rewinds M L s.store s.tip_height fork small low v in
      let same : u ≡ t' = ground (arith, again, run) in
      let rewind : Rewound M L s.store s.tip_height fork t' = rw (← same) r in
      let c₀ = start_scan M L T (record s { last_block_time = now }) in
      let c = record (at_branch c₀ fork (L.prev_blockhash h) t') {
        validated = number M L T (fork + 1) (h ∷ hs);
        prev_hash = last_hash M L T (L.block_hash h) hs;
        next_height = fork + 1 + length (h ∷ hs);
      } in
      let link = check_link-branch c₀ h fork t' gone (omega arith) (omega arith) ne found run in
      let after = store_headers-SameChain M L T peer (length (h ∷ hs)) c in
      rw (scan-branch c₀ h hs fork t' link w x) (record {
        rewind = rewind;
        tip_height = after.tip_height ∙ omega arith;
        tip_hash = after.tip_hash;
        extended =
            rw after.store (batch-Extended M L T t' (fork + 1) h hs fits rewind.heights.indexed f);
      })
