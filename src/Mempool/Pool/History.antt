-- ===== src/Mempool/Pool/History.antt =====
-- What every mempool that the operations of crates/wolfe-mempool/src/pool.rs lead to keeps.
use bitcoin_wolfe.Prelude.{
  ℕ, ◌*◌, ◌^◌, ◌<◌, ◌≡◌, refl, sym, ◌∙◌, Bool-cases, inl, inr, List, [], ◌∷◌, arith, ltb, leb,
  ℕ_discrete,
}
use mathlib.Core.List.{reverse}
use bitcoin_wolfe.Map.Assoc.{lookup, sum_by, sum_by-same_lookups}
use bitcoin_wolfe.Mempool.Types.{F64, TxLib, Tx, MempoolConfig, MempoolEntry, Entries, ok}
use bitcoin_wolfe.Mempool.Pool.{
  Mempool, new, add, remove, remove_for_block, trim, trim_loop, get_sorted_by_fee_rate, expire,
}
use bitcoin_wolfe.Mempool.Pool.Size.{
  IsCounted, entries_size, remove-IsCounted, remove_for_block-IsCounted, expire-IsCounted,
}
use bitcoin_wolfe.Mempool.Pool.Admission.{add-IsCounted}

module _ (F : F64) (B : TxLib) (E : Entries F B) where
  -- One operation, at any time and on any arguments; an `add` that fails changes nothing.
  pub data Step : Mempool F B E → Mempool F B E → Type 0 where
    added :
        {p p' : Mempool F B E} (now : ℕ) (tx : Tx B) (fee id : ℕ)
        → add F B E now p tx fee ≡ ok (p', id)
        → Step p p'
    removed : (p : Mempool F B E) (txid : ℕ) → Step p (remove F B E p txid)
    confirmed : (p : Mempool F B E) (txids : List ℕ) → Step p (remove_for_block F B E p txids)
    trimmed : (p : Mempool F B E) → Step p (trim F B E p)
    expired_at : (p : Mempool F B E) (now max_age : ℕ) → Step p (expire F B E now p max_age)

  pub data Reach (start : Mempool F B E) : Mempool F B E → Type 0 where
    here : Reach start start
    next : {p q : Mempool F B E} → Reach start p → Step p q → Reach start q

  trim_loop-IsCounted :
      (p : Mempool F B E) (entries : List (MempoolEntry F B))
      → IsCounted F B E p
      → IsCounted F B E (trim_loop F B E p entries)
  unfolding trim_loop
  trim_loop-IsCounted p [] v = v
  trim_loop-IsCounted p (e ∷ rest) v = elim (Bool-cases (ltb p.max_bytes p.total_bytes)) [
    | inl over ↦
        rw over
          (trim_loop-IsCounted (remove F B E p e.txid) rest (remove-IsCounted F B E p e.txid v))
    | inr within ↦ rw within v
  ]

  trim-IsCounted : (p : Mempool F B E) → IsCounted F B E p → IsCounted F B E (trim F B E p)
  unfolding trim
  trim-IsCounted p v = elim (Bool-cases (leb p.total_bytes p.max_bytes)) [
    | inl within ↦ rw within v
    | inr over ↦ rw over (trim_loop-IsCounted p (reverse (get_sorted_by_fee_rate F B E p)) v)
  ]

  Step-IsCounted :
      {p q : Mempool F B E}
      → ((tx : Tx B) → B.vbytes_ceil tx < 2 ^ 63)
      → Step p q
      → IsCounted F B E p
      → IsCounted F B E q
  Step-IsCounted small (added now tx fee id e) v =
      add-IsCounted F B E now _ _ tx fee id v (small tx) e
  Step-IsCounted small (removed p txid) v = remove-IsCounted F B E p txid v
  Step-IsCounted small (confirmed p txids) v = remove_for_block-IsCounted F B E p txids v
  Step-IsCounted small (trimmed p) v = trim-IsCounted p v
  Step-IsCounted small (expired_at p now max_age) v = expire-IsCounted F B E now p max_age v

  entries_size-empty : entries_size F B E E.empty ≡ 0
  unfolding entries_size
  entries_size-empty =
      sum_by-same_lookups ℕ_discrete (λ (e : MempoolEntry F B). e.size_vbytes) (E.iter E.empty) []
        (E.iter-Distinct E.empty) tt
        (λ k. E.lookup-iter E.empty k ∙ E.get-empty k ∙ (unfold lookup in refl))
      ∙ (unfold sum_by in refl)

  new-IsCounted :
      (config : MempoolConfig F)
      → config.max_size_mb * 1024 * 1024 < 2 ^ 63
      → IsCounted F B E (new F B E config)
  unfolding new
  new-IsCounted config small = record {
    counted = sym entries_size-empty;
    within = omega arith;
    room = omega arith;
  }

  Reach-IsCounted_from :
      {start p : Mempool F B E}
      → ((tx : Tx B) → B.vbytes_ceil tx < 2 ^ 63)
      → Reach start p
      → IsCounted F B E start
      → IsCounted F B E p
  Reach-IsCounted_from small here v = v
  Reach-IsCounted_from small (next r step) v =
      Step-IsCounted small step (Reach-IsCounted_from small r v)

  -- Whatever adds, removals, blocks, trims and expiries a new mempool goes through, its size counter
  -- is the sum of the sizes of its entries, and within the limit. The limit of the configuration is
  -- below 2^63 bytes, and so is the virtual size of each transaction.
  pub Reach-IsCounted :
      (config : MempoolConfig F) {p : Mempool F B E}
      → config.max_size_mb * 1024 * 1024 < 2 ^ 63
      → ((tx : Tx B) → B.vbytes_ceil tx < 2 ^ 63)
      → Reach (new F B E config) p
      → IsCounted F B E p
  Reach-IsCounted config limit small r = Reach-IsCounted_from small r (new-IsCounted config limit)
