-- ===== src/Sync/Blocks/Progress.antt =====
-- What a block does to the engine of crates/wolfe-node/src/sync.rs.
use bitcoin_wolfe.Prelude.{ℕ, ◌≡◌, ◌⊎◌, refl, true, false, none, some, List, [], ◌∷◌, arith}
use bitcoin_wolfe.Bytes.{Bytes}
use bitcoin_wolfe.Store.Tables.{HeaderLib, Redb}
use bitcoin_wolfe.Sync.State.{
  SyncEngine, TxLib, Kernel, Block, Response, ProcessBlockResult, contains,
}
use bitcoin_wolfe.Sync.Blocks.Verdict.{ByVerdict}
use bitcoin_wolfe.Sync.Blocks.{without_hash, handle_block}

without_hash_absent : (h : Bytes) (l : List Bytes) → contains l h ≡ false → without_hash h l ≡ l
unfolding without_hash contains
without_hash_absent h [] e = refl
without_hash_absent h (x ∷ l) e = ground (arith, without_hash_absent h l)

module _ (M : Redb) (L : HeaderLib) (T : TxLib) (to_hex : Bytes → Bytes) where
  -- A block that was not asked for changes nothing, and is not answered.
  pub handle_block_unrequested :
      (now : ℕ) (s : SyncEngine M L T) (peer : ℕ) (block : Block L T)
      → contains s.pending_blocks (L.block_hash block.header) ≡ false
      → handle_block M L T to_hex now s peer block ≡ (s, none)
  unfolding handle_block
  handle_block_unrequested now s peer block e =
      rw (e, handle_block) (rw (without_hash_absent (L.block_hash block.header) s.pending_blocks e))

  -- A block that was not asked for.
  abbrev pub Unasked : SyncEngine M L T → Block L T → SyncEngine M L T × Response L T → Type 0
  Unasked s block result =
      (contains s.pending_blocks (L.block_hash block.header) ≡ false) × (result ≡ (s, none))

  -- A block that was asked for, on which there is no verdict: it is not pending any more.
  abbrev pub Unjudged : ℕ → SyncEngine M L T → Block L T → SyncEngine M L T × Response L T → Type 0
  Unjudged now s block result =
      (contains s.pending_blocks (L.block_hash block.header) ≡ true)
      × ((s.consensus ≡ none)
          ⊎ ((k : Kernel L T) × (s.consensus ≡ some k) × (k.validate_block block ≡ none)))
      × (result ≡ (
        record s {
          pending_blocks = without_hash (L.block_hash block.header) s.pending_blocks;
          last_block_time = now;
        },
        none,
      ))

  -- A block that was asked for and that the kernel has judged.
  abbrev pub Judged : SyncEngine M L T → Block L T → SyncEngine M L T × Response L T → Type 0
  Judged s block result =
      (k : Kernel L T) × (v : ProcessBlockResult) × (contains s.pending_blocks
          (L.block_hash block.header)
        ≡ true)
      × (s.consensus ≡ some k)
      × (k.validate_block block ≡ some v)
      × ByVerdict M L T to_hex k s block (without_hash (L.block_hash block.header) s.pending_blocks)
          v result.0
