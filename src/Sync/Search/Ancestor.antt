-- ===== src/Sync/Search/Ancestor.antt =====
-- `find_kernel_store_common_ancestor` of crates/wolfe-node/src/sync.rs: the height that it returns.
use bitcoin_wolfe.Prelude.{
  ℕ, zero, suc, ◌-◌, ◌%◌, ◌^◌, ◌≤◌, ◌≡◌, ◌≢◌, ◌⊎◌, inl, inr, refl, sym, ap, ◌∙◌, true, Bool, Option,
  none, some, Bool-cases, arith, if_pos, ltb, ltb→lt, ltb-false,
}
use bitcoin_wolfe.Bytes.{Bytes, bytes_discrete}
use bitcoin_wolfe.Store.Tables.{HeaderLib, Redb, Tables}
use bitcoin_wolfe.Sync.Search.{
  stored_hash, agree, ancestor_search, find_kernel_store_common_ancestor,
}

module _ (M : Redb) (L : HeaderLib) (to_hex : Bytes → Bytes)
    (get_block_at_height : ℕ → Option Bytes) where
  -- Kernel and store have the same block at the height, cast to u32.
  abbrev pub Agree : Tables M → ℕ → Type 0
  Agree t h =
      (hash : Bytes) × (get_block_at_height (h % 2 ^ 32) ≡ some (to_hex hash))
      × (stored_hash M L t h ≡ some hash)

  -- The highest height from `start` down to 1001 below it where kernel and store agree, and 0 where
  -- there is none.
  pub record IsAncestor (t : Tables M) (start common : ℕ) : Type 0 where
    pub agreed : (common ≡ 0) ⊎ Agree t common
    pub below : common ≤ start
    pub near : (common ≡ 0) ⊎ (start - common ≤ 1001)
    pub highest : (h : ℕ) → Agree t h → h ≤ start → start - h ≤ 1001 → h ≤ common

  agree_sound :
      (o p : Option Bytes)
      → agree M L to_hex get_block_at_height o p ≡ true
      → (hash : Bytes) × (o ≡ some (to_hex hash)) × (p ≡ some hash)
  unfolding agree
  agree_sound none p e = absurd (ground (arith, e))
  agree_sound (some x) none e = absurd (ground (arith, e))
  agree_sound (some x) (some hash) e = (hash, ground (arith, e), refl)

  agree_complete :
      (hash : Bytes) → agree M L to_hex get_block_at_height (some (to_hex hash)) (some hash) ≡ true
  unfolding agree
  agree_complete hash = if_pos (bytes_discrete (to_hex hash) (to_hex hash)) refl true Bool.false

  module _ (t : Tables M) (start : ℕ) where
    search-IsAncestor :
        (height : ℕ)
        → height ≤ start
        → start - height ≤ 1001
        → let common = ancestor_search M L to_hex get_block_at_height t start height in
          ((common ≡ 0) ⊎ Agree t common)
          × (common ≤ height)
          × ((common ≡ 0) ⊎ (start - common ≤ 1001))
          × ((h : ℕ) → Agree t h → h ≤ height → start - h ≤ 1001 → h ≤ common)
    unfolding ancestor_search
    search-IsAncestor zero le near = (inl refl, omega arith, inl refl, λ h a low close. low)
    search-IsAncestor (suc k) le near =
        let kernel = get_block_at_height (suc k % 2 ^ 32) in
        let store = stored_hash M L t (suc k) in
        elim (Bool-cases (agree M L to_hex get_block_at_height kernel store)) [
          | inl e ↦
              rw (e)
                ((inr (agree_sound kernel store e), omega arith, inr near, λ h a low close. low))
          | inr e ↦
              let apart : (h : ℕ) → Agree t h → h ≢ suc k = λ h a q.
                let e' : agree M L to_hex get_block_at_height kernel store ≡ true =
                  ap
                    (λ j.
                      agree M L to_hex get_block_at_height (get_block_at_height (j % 2 ^ 32))
                        (stored_hash M L t j))
                    (sym q)
                  ∙ ap (λ o. agree M L to_hex get_block_at_height o (stored_hash M L t h)) a.1
                  ∙ ap (agree M L to_hex get_block_at_height (some (to_hex a.0))) a.2
                  ∙ agree_complete a.0 in
                ground (arith, sym e ∙ e') in
              elim (Bool-cases (ltb 1000 (start - suc k))) [
                | inl far ↦
                    rw (e, far)
                      ((
                        inl refl,
                        omega arith,
                        inl refl,
                        λ h a low close.
                            absurd (omega (arith, apart h a, low, close, le, near, ltb→lt _ _ far)),
                      ))
                | inr close ↦
                    let (a, b, c, d) =
                      search-IsAncestor k (omega (arith, le))
                        (omega (arith, le, ltb-false _ _ close)) in
                    rw (e, close)
                      ((
                        a,
                        omega (arith, b),
                        c,
                        λ h at low within. d h at (omega (arith, apart h at, low)) within,
                      ))
              ]
        ]

  pub find_kernel_store_common_ancestor-IsAncestor :
      (t : Tables M) (start : ℕ)
      → IsAncestor t start
          (find_kernel_store_common_ancestor M L to_hex get_block_at_height t start)
  unfolding find_kernel_store_common_ancestor
  find_kernel_store_common_ancestor-IsAncestor t start =
      let (a, b, c, d) = search-IsAncestor t start start (omega arith) (omega arith) in
      record { agreed = a; below = b; near = c; highest = d }
