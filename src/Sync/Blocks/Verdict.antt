-- ===== src/Sync/Blocks/Verdict.antt =====
-- What the verdict of the kernel on a block makes of the engine of crates/wolfe-node/src/sync.rs.
use mathlib.Core.Path.{subst}
use bitcoin_wolfe.Prelude.{
  ℕ, ◌+◌, ◌%◌, ◌^◌, ◌≡◌, refl, ap, ◌∙◌, Bool-cases, inl, inr, Option, none, some, List, [], ◌∷◌,
  map, ltb, arith,
}
use bitcoin_wolfe.Bytes.{Bytes}
use bitcoin_wolfe.Store.Tables.{HeaderLib, Redb}
use bitcoin_wolfe.Sync.State.{
  SyncEngine, TxLib, Kernel, Block, ProcessBlockResult, new_block, duplicate, rejected,
}
use bitcoin_wolfe.Sync.Search.{stored_hash, find_kernel_store_common_ancestor}
use bitcoin_wolfe.Sync.Search.Ancestor.{IsAncestor, find_kernel_store_common_ancestor-IsAncestor}
use bitcoin_wolfe.Sync.Request.{request_next_blocks, send_request}
use bitcoin_wolfe.Sync.Blocks.{
  finish_block, reset_tip, resync, after_resync, rejected_block, on_verdict,
}

module _ (M : Redb) (L : HeaderLib) (T : TxLib) (to_hex : Bytes → Bytes) where
  -- What the end of the handling of a block leaves alone.
  pub record SameCursor (s s' : SyncEngine M L T) : Type 0 where
    pub validated : s'.validated_height ≡ s.validated_height
    pub block : s'.last_validated_block ≡ s.last_validated_block
    pub txids : s'.last_confirmed_txids ≡ s.last_confirmed_txids
    pub reorg : s'.last_reorg_height ≡ s.last_reorg_height

  send_request-SameCursor :
      (s : SyncEngine M L T) (peer : ℕ) (hashes : List Bytes)
      → SameCursor s (send_request M L T s peer hashes).0
  unfolding send_request
  send_request-SameCursor s peer [] = record {
    validated = refl;
    block = refl;
    txids = refl;
    reorg = refl;
  }
  send_request-SameCursor s peer (h ∷ hs) = record {
    validated = refl;
    block = refl;
    txids = refl;
    reorg = refl;
  }

  request-SameCursor :
      (s : SyncEngine M L T) (peer : ℕ) → SameCursor s (request_next_blocks M L T s peer).0
  unfolding request_next_blocks
  request-SameCursor s peer = elim (Bool-cases (ltb s.tip_height (s.validated_height + 1))) [
    | inl e ↦
        rw (e, request_next_blocks)
          (record { validated = refl; block = refl; txids = refl; reorg = refl })
    | inr e ↦ rw (e, request_next_blocks) (send_request-SameCursor s peer _)
  ]

  finish_block-SameCursor :
      (k : Kernel L T) (s : SyncEngine M L T) (peer : ℕ) (pending : List Bytes)
      → SameCursor s (finish_block M L T to_hex k s peer pending).0
  unfolding finish_block
  finish_block-SameCursor k s peer (h ∷ hs) = ground arith
  finish_block-SameCursor k s peer [] = elim (Bool-cases (ltb s.validated_height s.tip_height)) [
    | inl e ↦
        let r = request-SameCursor (record s { blocks_height = k.chain_height }) peer in
        rw (e, finish_block)
          (record { validated = r.validated; block = r.block; txids = r.txids; reorg = r.reorg })
    | inr e ↦ rw (e, finish_block) (ground arith)
  ]

  -- The engine after a block that the kernel took as new: the block is kept for the wallet, and the ids
  -- of its transactions for the mempool.
  pub record Advanced (s : SyncEngine M L T) (block : Block L T) (s' : SyncEngine M L T)
      : Type 0 where
    pub validated : s'.validated_height ≡ s.validated_height + 1
    pub kept : s'.last_validated_block ≡ some (block, (s.validated_height + 1) % 2 ^ 32)
    pub txids : s'.last_confirmed_txids ≡ map T.compute_txid block.txdata
    pub reorg : s'.last_reorg_height ≡ s.last_reorg_height

  -- The engine after a block that it passes over: nothing is handed on.
  pub record Skipped (s s' : SyncEngine M L T) : Type 0 where
    pub validated : s'.validated_height ≡ s.validated_height + 1
    pub kept : s'.last_validated_block ≡ s.last_validated_block
    pub txids : s'.last_confirmed_txids ≡ s.last_confirmed_txids
    pub reorg : s'.last_reorg_height ≡ s.last_reorg_height

  -- The engine after a rejection that rolls it back: it goes on from the highest height where kernel
  -- and store agree, and Lightning is told of that height.
  pub record BackToAncestor (k : Kernel L T) (s s' : SyncEngine M L T) : Type 0 where
    pub common : ℕ
    pub ancestor : IsAncestor M L to_hex k.get_block_at_height s.store k.chain_height common
    pub validated : s'.validated_height ≡ common
    pub kept : s'.last_validated_block ≡ s.last_validated_block
    pub txids : s'.last_confirmed_txids ≡ s.last_confirmed_txids
    pub reorg : s'.last_reorg_height ≡ some (common % 2 ^ 32)

  -- What the verdict of the kernel makes of the engine, with the blocks that are still pending.
  abbrev pub ByVerdict :
      Kernel L T
      → SyncEngine M L T
      → Block L T
      → List Bytes
      → ProcessBlockResult
      → SyncEngine M L T
      → Type 0
  ByVerdict k s block pending new_block s' = Advanced s block s'
  ByVerdict k s block pending duplicate s' = Skipped s s'
  ByVerdict k s block [] rejected s' = Skipped s s'
  ByVerdict k s block (h ∷ hs) rejected s' = BackToAncestor k s s'

  skipped :
      (k : Kernel L T) (s s₁ : SyncEngine M L T) (peer : ℕ) (pending : List Bytes)
      → s₁.validated_height ≡ s.validated_height + 1
      → s₁.last_validated_block ≡ s.last_validated_block
      → s₁.last_confirmed_txids ≡ s.last_confirmed_txids
      → s₁.last_reorg_height ≡ s.last_reorg_height
      → Skipped s (finish_block M L T to_hex k s₁ peer pending).0
  skipped k s s₁ peer pending v b t r =
      let same = finish_block-SameCursor k s₁ peer pending in
      record {
        validated = same.validated ∙ v;
        kept = same.block ∙ b;
        txids = same.txids ∙ t;
        reorg = same.reorg ∙ r;
      }

  reset_tip-SameCursor :
      (s : SyncEngine M L T) (common : ℕ) (o : Option Bytes)
      → SameCursor s (reset_tip M L T to_hex s common o)
  unfolding reset_tip
  reset_tip-SameCursor s common none = record {
    validated = refl;
    block = refl;
    txids = refl;
    reorg = refl;
  }
  reset_tip-SameCursor s common (some h) = record {
    validated = refl;
    block = refl;
    txids = refl;
    reorg = refl;
  }

  resync-BackToAncestor :
      (now : ℕ) (k : Kernel L T) (s : SyncEngine M L T)
      → BackToAncestor k s (resync M L T to_hex now k s)
  unfolding resync
  resync-BackToAncestor now k s =
      let common =
        find_kernel_store_common_ancestor M L to_hex k.get_block_at_height s.store k.chain_height in
      let s₁ = record s {
        pending_blocks = [];
        validated_height = common;
        last_reorg_height = some (common % 2 ^ 32);
      } in
      let same = reset_tip-SameCursor s₁ common (stored_hash M L s₁.store common) in
      record {
        common = common;
        ancestor =
            find_kernel_store_common_ancestor-IsAncestor M L to_hex k.get_block_at_height s.store
              k.chain_height;
        validated = same.validated;
        kept = same.block;
        txids = same.txids;
        reorg = same.reorg;
      }

  after_resync-SameCursor :
      (k : Kernel L T) (s : SyncEngine M L T) (peer : ℕ) (sync_peer : Option ℕ)
      → SameCursor s (after_resync M L T to_hex k s peer sync_peer).0
  unfolding after_resync
  after_resync-SameCursor k s peer (some q) = record {
    validated = refl;
    block = refl;
    txids = refl;
    reorg = refl;
  }
  after_resync-SameCursor k s peer none = finish_block-SameCursor k s peer s.pending_blocks

  rejected_block-ByVerdict :
      (now : ℕ) (k : Kernel L T) (s s₁ : SyncEngine M L T) (peer : ℕ) (block : Block L T)
      (pending : List Bytes)
      → s₁ ≡ record s {
        pending_blocks = pending;
        last_block_time = now;
        validated_height = s.validated_height + 1;
      }
      → ByVerdict k s block pending rejected (rejected_block M L T to_hex now k s₁ peer pending).0
  unfolding rejected_block
  rejected_block-ByVerdict now k s s₁ peer block [] e =
      skipped k s s₁ peer [] (ap (λ x. x.validated_height) e) (ap (λ x. x.last_validated_block) e)
        (ap (λ x. x.last_confirmed_txids) e) (ap (λ x. x.last_reorg_height) e)
  rejected_block-ByVerdict now k s s₁ peer block (h ∷ hs) e =
      let back = resync-BackToAncestor now k s₁ in
      let same =
        after_resync-SameCursor k (resync M L T to_hex now k s₁) peer
          (resync M L T to_hex now k s₁).sync_peer in
      record {
        common = back.common;
        ancestor =
            subst (λ t. IsAncestor M L to_hex k.get_block_at_height t k.chain_height back.common)
              (ap (λ x. x.store) e) back.ancestor;
        validated = same.validated ∙ back.validated;
        kept = same.block ∙ back.kept ∙ ap (λ x. x.last_validated_block) e;
        txids = same.txids ∙ back.txids ∙ ap (λ x. x.last_confirmed_txids) e;
        reorg = same.reorg ∙ back.reorg;
      }

  pub on_verdict-ByVerdict :
      (now : ℕ) (k : Kernel L T) (s : SyncEngine M L T) (peer : ℕ) (block : Block L T)
      (pending : List Bytes) (v : ProcessBlockResult)
      → ByVerdict k s block pending v
          (on_verdict M L T to_hex now k
            (record s { pending_blocks = pending; last_block_time = now })
            peer
            block
            (some v)).0
  unfolding on_verdict
  on_verdict-ByVerdict now k s peer block pending new_block =
      let s' = record s {
        pending_blocks = pending;
        last_block_time = now;
        validated_height = s.validated_height + 1;
        last_confirmed_txids = map T.compute_txid block.txdata;
        last_validated_block = some (block, (s.validated_height + 1) % 2 ^ 32);
      } in
      let same = finish_block-SameCursor k s' peer pending in
      record {
        validated = same.validated;
        kept = same.block;
        txids = same.txids;
        reorg = same.reorg;
      }
  on_verdict-ByVerdict now k s peer block pending duplicate =
      skipped k s
        (record s {
          pending_blocks = pending;
          last_block_time = now;
          validated_height = s.validated_height + 1;
        })
        peer pending refl refl refl refl
  on_verdict-ByVerdict now k s peer block pending rejected =
      rejected_block-ByVerdict now k s
        (record s {
          pending_blocks = pending;
          last_block_time = now;
          validated_height = s.validated_height + 1;
        })
        peer block pending refl
