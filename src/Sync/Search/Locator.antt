-- ===== src/Sync/Search/Locator.antt =====
-- `build_locator` of crates/wolfe-node/src/sync.rs: the loop ends, and the locator ends in genesis.
use bitcoin_wolfe.Prelude.{
  ℕ, zero, suc, ◌-◌, ◌*◌, ◌<◌, ◌≡◌, refl, some, List, [], ◌∷◌, ◌++◌, Bool-cases, inl, inr, ltb, leb,
  ◌==◌, if◌then◌else◌, length, arith,
}
use bitcoin_wolfe.Bytes.{Bytes}
use bitcoin_wolfe.Store.Tables.{HeaderLib, Redb, Tables}
use bitcoin_wolfe.Store.Headers.{next_back}
use bitcoin_wolfe.Sync.Search.{
  stored_hash, push_found, is_hash, locator_loop, with_genesis, build_locator,
}
use bitcoin_wolfe.Sync.Search.Fork.{is_hash_iff}

next_back-append {ℓ} : {A : Type ℓ} (xs : List A) (x : A) → next_back (xs ++ x ∷ []) ≡ some x
unfolding next_back
next_back-append [] x = refl
next_back-append (y ∷ xs) x = ground (arith, next_back-append xs x)

module _ (M : Redb) (L : HeaderLib) where
  -- The step stays positive, so the height falls until it is 0.
  locator_loop_total :
      (fuel : ℕ) (t : Tables M) (height step : ℕ) (locator : List Bytes)
      → height < fuel
      → 0 < step
      → (l : List Bytes) × (locator_loop M L fuel t height step locator ≡ some l)
  unfolding locator_loop
  locator_loop_total zero t height step locator h p = absurd (omega arith)
  locator_loop_total (suc fuel) t height step locator h p =
      let locator' = push_found M L locator (stored_hash M L t height) in
      let step' = if leb 10 (length locator') then step * 2 else step in
      let height' = if ltb height step' then 0 else height - step' in
      elim (Bool-cases (height == 0)) [
        | inl e ↦ (locator', rw e)
        | inr e ↦
            let pos : 0 < step' = ground arith in
            let lower : height' < fuel = ground arith in
            let (l, run) = locator_loop_total fuel t height' step' locator' lower pos in
            (l, rw e run)
      ]

  next_back-with_genesis :
      (genesis : Bytes) (l : List Bytes) → next_back (with_genesis M L genesis l) ≡ some genesis
  unfolding with_genesis
  next_back-with_genesis genesis l = elim (Bool-cases (is_hash M L (next_back l) genesis)) [
    | inl e ↦ rw e (is_hash_iff M L (next_back l) genesis e)
    | inr e ↦ rw e (next_back-append l genesis)
  ]

  -- Whatever is stored, the loop of the locator ends within `tip + 1` rounds, and the last hash of
  -- the locator is genesis.
  pub build_locator-genesis :
      (t : Tables M) (tip : ℕ) (genesis : Bytes)
      → (l : List Bytes) × (locator_loop M L (suc tip) t tip 1 [] ≡ some l)
        × (build_locator M L t tip genesis ≡ with_genesis M L genesis l)
        × (next_back (build_locator M L t tip genesis) ≡ some genesis)
  unfolding build_locator
  build_locator-genesis t tip genesis =
      let (l, run) = locator_loop_total (suc tip) t tip 1 [] (omega arith) (omega arith) in
      (l, run, rw (run, build_locator), rw (run, build_locator) (next_back-with_genesis genesis l))
