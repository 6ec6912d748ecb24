-- ===== src/Mempool/Pool/Size.antt =====
-- The size counter of crates/wolfe-mempool/src/pool.rs is the sum of the entries' sizes.
use bitcoin_wolfe.Prelude.{
  ℕ, ◌+◌, ◌^◌, ◌<◌, ◌≤◌, ◌≡◌, refl, sym, ap, ◌∙◌, Option-cases, inl, inr, Option, none, some, List,
  [], ◌∷◌, arith, ite, ℕ_discrete,
}
use bitcoin_wolfe.Map.Assoc.{
  lookup, without, sum_by, measure?, sum_by-without, sum_by-same_lookups, lookup-without,
  without-Distinct,
}
use bitcoin_wolfe.Mempool.Types.{F64, TxLib, MempoolEntry, Entries, OutPoint}
use bitcoin_wolfe.Mempool.Pool.{
  remove_for_block, expire, expired, Mempool, bump, bump_parents, remove, remove_found, add64,
}

module _ (F : F64) (B : TxLib) (E : Entries F B) where
  abbrev size : MempoolEntry F B → ℕ
  size e = e.size_vbytes

  -- The sizes of all entries.
  unfoldable pub entries_size : E.Map → ℕ
  entries_size m = sum_by ℕ_discrete size (E.iter m)

  -- The counter is right, and the mempool is within its limit, which leaves room for one more
  -- transaction of any admissible size below 2^64.
  pub record IsCounted (p : Mempool F B E) : Type 0 where
    pub counted : p.total_bytes ≡ entries_size p.entries
    pub within : p.total_bytes ≤ p.max_bytes
    pub room : p.max_bytes < 2 ^ 63

  entries_size-remove :
      (m : E.Map) (k : ℕ)
      → entries_size (E.remove m k) + measure? ℕ_discrete size (E.get m k) ≡ entries_size m
  unfolding entries_size
  entries_size-remove m k =
      let same : sum_by ℕ_discrete size (E.iter (E.remove m k))
          ≡ sum_by ℕ_discrete size (without ℕ_discrete k (E.iter m)) =
        sum_by-same_lookups ℕ_discrete size (E.iter (E.remove m k))
          (without ℕ_discrete k (E.iter m)) (E.iter-Distinct (E.remove m k))
          (without-Distinct ℕ_discrete k (E.iter m) (E.iter-Distinct m))
          λ j.
            E.lookup-iter (E.remove m k) j
            ∙ E.get-remove m k j
            ∙ sym (
                lookup-without ℕ_discrete k j (E.iter m)
                ∙ ap (λ o. ite (ℕ_discrete k j) none o) (E.lookup-iter m j)) in
      let parts = sum_by-without ℕ_discrete size k (E.iter m) (E.iter-Distinct m) in
      let found = ap (measure? ℕ_discrete size) (E.lookup-iter m k) in
      omega (arith, same, parts, found)

  without_self :
      (k : ℕ) (l : List (ℕ × MempoolEntry F B))
      → lookup ℕ_discrete k (without ℕ_discrete k l) ≡ none
  without_self k l = ground (arith, lookup-without ℕ_discrete k k l)

  lookup-cons :
      (m : E.Map) (k j : ℕ) (e : MempoolEntry F B)
      → lookup ℕ_discrete j ((k, e) ∷ without ℕ_discrete k (E.iter m))
        ≡ ite (ℕ_discrete k j) (some e) (E.get m j)
  unfolding lookup
  lookup-cons m k j e = ground (arith, lookup-without ℕ_discrete k j (E.iter m), E.lookup-iter m j)

  pub entries_size-insert :
      (m : E.Map) (k : ℕ) (e : MempoolEntry F B)
      → entries_size (E.insert m k e) + measure? ℕ_discrete size (E.get m k)
        ≡ entries_size m + e.size_vbytes
  unfolding entries_size
  entries_size-insert m k e =
      let rest = without ℕ_discrete k (E.iter m) in
      let same : sum_by ℕ_discrete size (E.iter (E.insert m k e))
          ≡ sum_by ℕ_discrete size ((k, e) ∷ rest) =
        sum_by-same_lookups ℕ_discrete size (E.iter (E.insert m k e)) ((k, e) ∷ rest)
          (E.iter-Distinct (E.insert m k e))
          (without_self k (E.iter m), without-Distinct ℕ_discrete k (E.iter m) (E.iter-Distinct m))
          λ j.
            E.lookup-iter (E.insert m k e) j ∙ E.get-insert m k j e ∙ sym (lookup-cons m k j e) in
      let parts = sum_by-without ℕ_discrete size k (E.iter m) (E.iter-Distinct m) in
      let found = ap (measure? ℕ_discrete size) (E.lookup-iter m k) in
      let cons : sum_by ℕ_discrete size ((k, e) ∷ rest)
          ≡ e.size_vbytes + sum_by ℕ_discrete size rest =
        (unfold sum_by in refl) in
      omega (arith, same, cons, parts, found)

  entries_size-bump :
      (m : E.Map) (k : ℕ) (o : Option (MempoolEntry F B))
      → E.get m k ≡ o
      → entries_size (bump F B E m k o) ≡ entries_size m
  unfolding bump
  entries_size-bump m k none e = refl
  entries_size-bump m k (some parent) e =
      let up = record parent { descendant_count = add64 parent.descendant_count 1 } in
      let found = ap (measure? ℕ_discrete size) e in
      omega (arith, entries_size-insert m k up, found)

  pub entries_size-bump_parents :
      (m : E.Map) (l : List OutPoint) → entries_size (bump_parents F B E m l) ≡ entries_size m
  unfolding bump_parents
  entries_size-bump_parents m [] = refl
  entries_size-bump_parents m (o ∷ rest) =
      entries_size-bump_parents (bump F B E m o.txid (E.get m o.txid)) rest
      ∙ entries_size-bump m o.txid (E.get m o.txid) refl

  pub remove-IsCounted :
      (p : Mempool F B E) (txid : ℕ) → IsCounted p → IsCounted (remove F B E p txid)
  unfolding remove remove_found
  remove-IsCounted p txid v = elim (Option-cases (E.get p.entries txid)) [
    | inl e ↦ rw (e, remove) v
    | inr (entry, e) ↦
        let left = entries_size-remove p.entries txid in
        let found = ap (measure? ℕ_discrete size) e in
        rw (e, remove)
          (record {
            counted = omega (arith, left, found, v.counted, v.within, v.room);
            within = omega (arith, left, found, v.counted, v.within, v.room);
            room = v.room;
          })
  ]

  pub remove_for_block-IsCounted :
      (p : Mempool F B E) (txids : List ℕ)
      → IsCounted p
      → IsCounted (remove_for_block F B E p txids)
  unfolding remove_for_block
  remove_for_block-IsCounted p [] v = v
  remove_for_block-IsCounted p (txid ∷ rest) v =
      remove_for_block-IsCounted (remove F B E p txid) rest (remove-IsCounted p txid v)

  pub expire-IsCounted :
      (now : ℕ) (p : Mempool F B E) (max_age : ℕ)
      → IsCounted p
      → IsCounted (expire F B E now p max_age)
  unfolding expire
  expire-IsCounted now p max_age v =
      remove_for_block-IsCounted p (expired F B E now max_age (E.iter p.entries)) v
