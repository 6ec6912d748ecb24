-- ===== src/Sync/Search/Fork.antt =====
-- `find_fork_point` of crates/wolfe-node/src/sync.rs: what it finds, and how far back it looks.
use mathlib.Core.Path.{subst}
use mathlib.Core.Option.{some-injective}
use bitcoin_wolfe.Prelude.{
  ◌↔◌, ℕ, zero, suc, ◌-◌, ◌%◌, ◌^◌, ◌<◌, ◌≤◌, ◌≡◌, sym, ◌∙◌, true, Option, none, some, Option-cases,
  Bool-cases, inl, inr, arith, ap, ◌≢◌,
}
use mathlib.Core.Bool.{false≢true}
use bitcoin_wolfe.Bytes.{Bytes}
use bitcoin_wolfe.Store.Tables.{HeaderLib, Redb, Tables}
use bitcoin_wolfe.Store.Error.{StoreResult}
use bitcoin_wolfe.Store.Headers.{StoredHeader, get_by_height}
use bitcoin_wolfe.Store.Headers.Index.{IsIndexed}
use bitcoin_wolfe.Store.Headers.Lookup.{hash_at, get_by_height-none, get_by_height_stored}
use bitcoin_wolfe.Sync.Search.{stored_hash, is_hash, fork_search, find_fork_point}

module _ (M : Redb) (L : HeaderLib) where
  looked :
      (t : Tables M) {height : ℕ} {r : StoreResult (Option (StoredHeader L))} (k : ℕ)
      → k ≡ height
      → get_by_height M L t height ≡ r
      → get_by_height M L t k ≡ r
  looked t k e q = rw e q

  -- On indexed tables the engine sees the hash that the index names.
  pub stored_hash-eq-hash_at :
      (t : Tables M) (height : ℕ)
      → height < 2 ^ 32
      → IsIndexed M L t
      → stored_hash M L t height ≡ hash_at M L t height
  unfolding stored_hash
  stored_hash-eq-hash_at t height small v =
      let same : height % 2 ^ 32 ≡ height = omega arith in
      elim (Option-cases (hash_at M L t height)) [
        | inl e ↦
            ground (arith, looked t (height % 2 ^ 32) same (get_by_height-none M L t height e), e)
        | inr (hash, e) ↦ ground (
          arith,
          looked t (height % 2 ^ 32) same
              (get_by_height_stored M L t height small (v.indexed _ hash e) e),
          e,
        )
      ]

  pub is_hash_iff : (o : Option Bytes) (h : Bytes) → is_hash M L o h ≡ true → o ≡ some h
  unfolding is_hash
  is_hash_iff none h e = cc
  is_hash_iff (some x) h e = ground arith

  is_hash-some : (h : Bytes) → is_hash M L (some h) h ≡ true
  unfolding is_hash
  is_hash-some h = ground arith

  module _ (t : Tables M) (tip : ℕ) (prev : Bytes) where
    fork_search-found :
        (height fork : ℕ)
        → height ≤ tip
        → tip - height ≤ 2017
        → fork_search M L t tip prev height ≡ some fork
        → (stored_hash M L t fork ≡ some prev) × (fork ≤ height) × (tip - fork ≤ 2017)
    unfolding fork_search
    fork_search-found zero fork le near e = ground (arith, is_hash_iff (stored_hash M L t 0) prev)
    fork_search-found (suc h) fork le near e =
        ground (arith, is_hash_iff (stored_hash M L t (suc h)) prev, fork_search-found h fork)

    fork_search-first :
        (height fork : ℕ)
        → height ≤ tip
        → tip - height ≤ 2017
        → stored_hash M L t fork ≡ some prev
        → fork ≤ height
        → tip - fork ≤ 2017
        → (h : ℕ) × (fork_search M L t tip prev height ≡ some h) × (fork ≤ h)
    unfolding fork_search
    fork_search-first zero fork le near at low close =
        let z : fork ≡ 0 = omega arith in (0, rw (← z, at, is_hash-some prev), omega arith)
    fork_search-first (suc h) fork le near at low close =
        elim (Bool-cases (is_hash M L (stored_hash M L t (suc h)) prev)) [
          | inl e ↦ (suc h, rw e, low)
          | inr e ↦
              let apart : fork ≢ suc h = λ q. false≢true (
                sym e
                ∙ ap (λ k. is_hash M L (stored_hash M L t k) prev) (sym q)
                ∙ ap (λ o. is_hash M L o prev) at
                ∙ is_hash-some prev) in
              let (k, run, up) =
                fork_search-first h fork (omega arith) (omega arith) at (omega arith) close in
              (k, rw e (ground (arith, run)), up)
        ]

  pub find_fork_point-found :
      (t : Tables M) (tip fork : ℕ) (prev : Bytes)
      → find_fork_point M L t tip prev ≡ some fork
      → (stored_hash M L t fork ≡ some prev) × (fork ≤ tip) × (tip - fork ≤ 2017)
  unfolding find_fork_point
  find_fork_point-found t tip fork prev e =
      fork_search-found t tip prev tip fork (omega arith) (omega arith) e

  pub find_fork_point_complete :
      (t : Tables M) (tip fork : ℕ) (prev : Bytes)
      → stored_hash M L t fork ≡ some prev
      → fork ≤ tip
      → tip - fork ≤ 2017
      → (h : ℕ) × (find_fork_point M L t tip prev ≡ some h) × (fork ≤ h)
  unfolding find_fork_point
  find_fork_point_complete t tip fork prev at low close =
      fork_search-first t tip prev tip fork (omega arith) (omega arith) at low close

  -- The highest height of those at most 2017 below the tip that stores the hash.
  pub record IsHighest (t : Tables M) (tip : ℕ) (prev : Bytes) (fork : ℕ) : Type 0 where
    pub stored : stored_hash M L t fork ≡ some prev
    pub below : fork ≤ tip
    pub near : tip - fork ≤ 2017
    pub highest : (h : ℕ) → stored_hash M L t h ≡ some prev → h ≤ tip → tip - h ≤ 2017 → h ≤ fork

  -- `find_fork_point` finds a height exactly when it is the highest that stores the hash, of those at
  -- most 2017 below the tip.
  pub find_fork_point-IsHighest :
      (t : Tables M) (tip fork : ℕ) (prev : Bytes)
      → (find_fork_point M L t tip prev ≡ some fork) ↔ IsHighest t tip prev fork
  find_fork_point-IsHighest t tip fork prev = (
    λ found.
        let (stored, below, near) = find_fork_point-found t tip fork prev found in
        record {
          stored = stored;
          below = below;
          near = near;
          highest = λ h at low close.
              let (k, run, up) = find_fork_point_complete t tip h prev at low close in
              subst (λ j. h ≤ j) (some-injective _ _ (sym run ∙ found)) up;
        },
    λ is.
        let (k, run, up) = find_fork_point_complete t tip fork prev is.stored is.below is.near in
        let (stored, below, near) = find_fork_point-found t tip k prev run in
        let down = is.highest k stored below near in
        let same : k ≡ fork = omega (arith, up, down) in run ∙ ap some same,
  )
