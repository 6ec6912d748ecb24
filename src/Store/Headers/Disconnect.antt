-- ===== src/Store/Headers/Disconnect.antt =====
-- `disconnect_range` of crates/wolfe-store/src/headers.rs: the loop that rolls back a stale
-- segment of the chain.
use bitcoin_wolfe.Prelude.{
  ℕ, zero, suc, ◌+◌, ◌-◌, ◌^◌, ◌<◌, ◌≤◌, ◌≡◌, ◌≢◌, ◌⊎◌, refl, inl, inr, Option, none, some,
  Option-cases, List, [], ◌∷◌, ◌++◌, ◌∙◌, ℕ_discrete, arith,
}
use mathlib.Core.List.{append_assoc, append-nil}
use bitcoin_wolfe.Bytes.{Bytes, to_be_bytes, to_be-injective}
use bitcoin_wolfe.Store.Error.{ok}
use bitcoin_wolfe.Store.Tables.{HeaderLib, Redb, Tables}
use bitcoin_wolfe.Store.Headers.{disconnect_round, disconnect_loop, disconnect_range}
use bitcoin_wolfe.Store.Headers.Index.{
  IsIndexed, removed, remove-eq-removed, removed-IsIndexed, get-removed-height_to_hash,
}
use bitcoin_wolfe.Store.Headers.Lookup.{
  hash_at, get_by_height_write-none, get_by_height_write_stored,
}

abbrev pub one_if_some {ℓ} : {A : Type ℓ} → Option A → List A
one_if_some none = []
one_if_some (some a) = a ∷ []

module _ (M : Redb) (L : HeaderLib) where
  -- The hashes at the heights `to + k - 1` down to `to`, where there are any.
  unfoldable pub hashes_down : ℕ → ℕ → Tables M → List Bytes
  hashes_down zero to t = []
  hashes_down (suc k) to t = one_if_some (hash_at M L t (to + k)) ++ hashes_down k to t

  -- Only the heights below `to + k` matter to it.
  hashes_down-congr :
      (k to : ℕ) (t t' : Tables M)
      → ((j : ℕ) → j < to + k → hash_at M L t' j ≡ hash_at M L t j)
      → hashes_down k to t' ≡ hashes_down k to t
  unfolding hashes_down
  hashes_down-congr zero to t t' same = refl
  hashes_down-congr (suc k) to t t' same =
      cc (same (to + k) (omega arith), hashes_down-congr k to t t' λ j h. same j (omega arith))

  -- One round: the block at `height` is gone, and all other heights keep theirs.
  record Dropped (t : Tables M) (height : ℕ) (t' : Tables M) : Type 0 where
    indexed : IsIndexed M L t'
    gone : hash_at M L t' height ≡ none
    kept : (j : ℕ) → j < 2 ^ 32 → j ≢ height → hash_at M L t' j ≡ hash_at M L t j

  -- What the loop promises of the heights from `to` to below `end`.
  pub record Disconnected (t : Tables M) (to end : ℕ) (t' : Tables M) : Type 0 where
    pub indexed : IsIndexed M L t'
    pub gone : (j : ℕ) → to ≤ j → j < end → hash_at M L t' j ≡ none
    pub kept : (j : ℕ) → j < 2 ^ 32 → (j < to) ⊎ (end ≤ j) → hash_at M L t' j ≡ hash_at M L t j

  drop_round :
      (t : Tables M) (height : ℕ) (acc : List Bytes)
      → height < 2 ^ 32
      → IsIndexed M L t
      → (t' : Tables M) × (disconnect_round M L t acc height
          ≡ ok (t', acc ++ one_if_some (hash_at M L t height)))
        × Dropped t height t'
  unfolding disconnect_round
  drop_round t height acc small v = elim (Option-cases (hash_at M L t height)) [
    | inl e ↦ (
      t,
      rw (get_by_height_write-none M L t height e, e) (rw append-nil),
      record { indexed = v; gone = e; kept = λ j _ _. refl },
    )
    | inr (hash, e) ↦
        let s = v.indexed (to_be_bytes 4 height) hash e in
        (
          removed M L t hash,
          rw (get_by_height_write_stored M L t height small s e, e)
              (rw (remove-eq-removed M L t hash v)),
          record {
            indexed = removed-IsIndexed M L t hash v;
            gone = ground (
              arith,
              s.height,
              get-removed-height_to_hash M L t hash (to_be_bytes 4 height) (to_be_bytes 4 height)
                  s.height,
            );
            kept = λ j hj ne. ground (
              arith,
              to_be-injective 4 height j small hj,
              get-removed-height_to_hash M L t hash (to_be_bytes 4 height) (to_be_bytes 4 j)
                  s.height,
            );
          },
        )
  ]

  Disconnected-step :
      (k to : ℕ) (t t₁ t₂ : Tables M)
      → to + suc k ≤ 2 ^ 32
      → Dropped t (to + k) t₁
      → Disconnected t₁ to (to + k) t₂
      → Disconnected t to (to + suc k) t₂
  Disconnected-step k to t t₁ t₂ h d₁ d₂ = record {
    indexed = d₂.indexed;
    gone = λ j a b. elim (ℕ_discrete j (to + k)) [
      | yes e ↦ rw e (d₂.kept (to + k) (omega arith) (inr (omega arith)) ∙ d₁.gone)
      | no ne ↦ d₂.gone j a (omega arith)
    ];
    kept = λ j hj out. d₂.kept j hj (omega arith) ∙ d₁.kept j hj (omega arith);
  }

  loop_lem :
      (k to : ℕ) (t : Tables M) (acc : List Bytes)
      → to + k ≤ 2 ^ 32
      → IsIndexed M L t
      → (t' : Tables M) × (disconnect_loop M L k to t acc ≡ ok (t', acc ++ hashes_down k to t))
        × Disconnected t to (to + k) t'
  unfolding disconnect_loop hashes_down
  loop_lem zero to t acc h v = (
    t,
    rw append-nil,
    record { indexed = v; gone = λ j a b. absurd (omega arith); kept = λ j _ _. refl },
  )
  loop_lem (suc k) to t acc h v =
      let (t₁, run₁, d₁) = drop_round t (to + k) acc (omega arith) v in
      let (t₂, run₂, d₂) =
        loop_lem k to t₁ (acc ++ one_if_some (hash_at M L t (to + k))) (omega arith) d₁.indexed in
      let below : hashes_down k to t₁ ≡ hashes_down k to t =
        hashes_down-congr k to t t₁ (λ j hj. d₁.kept j (omega arith) (omega arith)) in
      (t₂, rw (run₁, run₂, below, append_assoc), Disconnected-step k to t t₁ t₂ h d₁ d₂)

  -- Rolling back 32-bit heights `from` down to `to`, both included, cannot fail on indexed tables. It
  -- returns the hashes that were there, highest first; it empties those heights, `to` among them,
  -- keeps all others, and keeps the index.
  pub disconnect_range_lem :
      (t : Tables M) (from to : ℕ)
      → from < 2 ^ 32
      → to ≤ from + 1
      → IsIndexed M L t
      → (t' : Tables M) × (disconnect_range M L t from to
          ≡ ok (t', hashes_down (from + 1 - to) to t))
        × Disconnected t to (from + 1) t'
  unfolding disconnect_range
  disconnect_range_lem t from to small h v =
      let (t', run, d) = loop_lem (from + 1 - to) to t [] (omega arith) v in
      let e : to + (from + 1 - to) ≡ from + 1 = omega arith in (t', run, rw e at d)
