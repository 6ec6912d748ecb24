-- ===== src/Store/Node/Reorg.antt =====
-- `reorganize` of crates/wolfe-store/src/lib.rs.
use bitcoin_wolfe.Prelude.{ℕ, ◌+◌, ◌-◌, ◌%◌, ◌^◌, ◌<◌, ◌≤◌, ◌≡◌, some, [], replicate, arith}
use bitcoin_wolfe.Bytes.{Bytes}
use bitcoin_wolfe.Store.Error.{ok}
use bitcoin_wolfe.Store.Tables.{HeaderLib, Redb, Tables}
use bitcoin_wolfe.Store.Headers.Index.{IsIndexed}
use bitcoin_wolfe.Store.Headers.Disconnect.{hashes_down, Disconnected, disconnect_range_lem}
use bitcoin_wolfe.Store.Meta
use bitcoin_wolfe.Store.Node.{reorganize}

module _ (M : Redb) (L : HeaderLib) where
  -- The sync progress is no part of what the indexes are about.
  Disconnected-set_sync_progress :
      {t t' : Tables M} {to end : ℕ} (height : ℕ) (hash : Bytes)
      → Disconnected M L t to end t'
      → Disconnected M L t to end (Meta.set_sync_progress M t' height hash)
  unfolding Meta.set_sync_progress
  Disconnected-set_sync_progress height hash d = record {
    indexed = record {
      indexed = λ hb h e.
          let s = d.indexed.indexed hb h e in
          record { header = s.header; bytes = s.bytes; hashed = s.hashed; height = s.height };
      four = d.indexed.four;
    };
    gone = d.gone;
    kept = d.kept;
  }

  -- The state after `reorganize` with no new headers.
  pub record Rewound (t : Tables M) (current fork : ℕ) (t' : Tables M) : Type 0 where
    pub heights : Disconnected M L t (fork + 1) (current + 1) t'
    pub progress : Meta.sync_height M t' ≡ some fork
    pub sync_hash : Meta.sync_hash M t' ≡ some (replicate 32 0)

  -- On indexed tables `reorganize` to a fork point, with no new headers, cannot fail. It returns the
  -- hashes above the fork point, highest first, and empties those heights; the lower heights and the
  -- index are kept, the stored sync height is the fork point, and the stored sync hash is all zeros.
  pub reorganize_rewinds :
      (t : Tables M) (current fork : ℕ)
      → current + 1 < 2 ^ 32
      → fork ≤ current
      → IsIndexed M L t
      → (t' : Tables M) × (reorganize M L t current fork []
          ≡ ok (t', hashes_down M L (current - fork) (fork + 1) t))
        × Rewound t current fork t'
  unfolding reorganize
  reorganize_rewinds t current fork small below v =
      let (t₁, run, d) =
        disconnect_range_lem M L t current (fork + 1) (omega arith) (omega arith) v in
      let wrap : (fork + 1) % 2 ^ 32 ≡ fork + 1 = omega arith in
      let rounds : current + 1 - (fork + 1) ≡ current - fork = omega arith in
      let sync = Meta.sync_progress-set_self M t₁ fork (replicate 32 0) (omega arith) in
      (
        Meta.set_sync_progress M t₁ fork (replicate 32 0),
        rw (wrap, run, rounds),
        record {
          heights = Disconnected-set_sync_progress fork (replicate 32 0) d;
          progress = sync.0;
          sync_hash = sync.1;
        },
      )
