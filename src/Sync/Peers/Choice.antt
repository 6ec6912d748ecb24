-- ===== src/Sync/Peers/Choice.antt =====
-- The choice of the sync peer in crates/wolfe-node/src/sync.rs.
use bitcoin_wolfe.Prelude.{
  ℕ, true, false, refl, ltb→lt, ltb-false, ◌<◌, ◌≤◌, ◌≡◌, ◌⊎◌, sym, ◌∙◌, Bool-cases, Option-cases,
  inl, inr, none, some, List, [], ◌∷◌, All, arith, ltb,
}
use bitcoin_wolfe.Store.Tables.{HeaderLib, Redb}
use bitcoin_wolfe.Sync.State.{SyncEngine, TxLib, Response, is_some, syncing_headers, syncing_blocks}
use bitcoin_wolfe.Sync.Request.{getheaders_from, request_next_blocks}
use bitcoin_wolfe.Sync.Peers.{
  highest, blocks_needed, claim_headers, claim_blocks, select_for_blocks, select_from,
  try_select_sync_peer,
}

-- The pair stands in the list.
abbrev pub Listed : ℕ → ℕ → List (ℕ × ℕ) → Type 0
Listed p h [] = ⊥
Listed p h ((q, k) ∷ rest) = ((p ≡ q) × (h ≡ k)) ⊎ Listed p h rest

All-le_trans : (a b : ℕ) (l : List (ℕ × ℕ)) → a ≤ b → All (λ e. e.1 ≤ a) l → All (λ e. e.1 ≤ b) l
All-le_trans a b [] le h = tt
All-le_trans a b ((p, k) ∷ l) le (h, hs) = (omega arith, All-le_trans a b l le hs)

Listed-eq : {p q h k : ℕ} (l : List (ℕ × ℕ)) → q ≡ p → k ≡ h → Listed q k l → Listed p h l
Listed-eq [] e f m = m
Listed-eq (x ∷ l) e f (inl (a, b)) = inl (sym e ∙ a, sym f ∙ b)
Listed-eq (x ∷ l) e f (inr m) = inr (Listed-eq l e f m)

highest-none : (floor : ℕ) (l : List (ℕ × ℕ)) → highest floor l ≡ none → All (λ e. e.1 ≤ floor) l
unfolding highest
highest-none floor [] e = tt
highest-none floor ((p, k) ∷ l) e = ground (arith, highest-none floor l)

-- The peer found is listed with its height, which is above the floor, and no listed height is higher.
pub highest-IsMax :
    (floor : ℕ) (l : List (ℕ × ℕ)) (p h : ℕ)
    → highest floor l ≡ some (p, h)
    → (floor < h) × Listed p h l × All (λ e. e.1 ≤ h) l
unfolding highest
highest-IsMax floor [] p h e = cc
highest-IsMax floor ((q, k) ∷ l) p h e = elim (Option-cases (highest floor l)) [
  | inl n ↦
      let low = highest-none floor l n in
      let at : (floor < k) × (p ≡ q) × (h ≡ k) = ground (arith, n) in
      (omega arith, inl (at.1, at.2), (omega arith, All-le_trans floor h l (omega arith) low))
  | inr ((q', k'), f) ↦
      let (above, listed, top) = highest-IsMax floor l q' k' f in
      elim (Bool-cases (ltb k' k)) [
        | inl c ↦
            let at : (p ≡ q) × (h ≡ k) = ground (arith, f, c) in
            (ground arith, inl at, (omega arith, All-le_trans k' h l (ground arith) top))
        | inr c ↦
            let at : (q' ≡ p) × (k' ≡ h) = ground (arith, f, c) in
            (
              omega arith,
              inr (Listed-eq l at.0 at.1 listed),
              (ground arith, All-le_trans k' h l (omega arith) top),
            )
      ]
]

-- A listed peer whose height is above the floor, where no listed height is higher.
abbrev pub IsBest : ℕ → List (ℕ × ℕ) → ℕ → ℕ → Type 0
IsBest floor l p h = (floor < h) × Listed p h l × All (λ e. e.1 ≤ h) l

-- No listed height is above the floor, or some peer is the best.
highest-cases :
    (floor : ℕ) (l : List (ℕ × ℕ))
    → ((highest floor l ≡ none) × All (λ e. e.1 ≤ floor) l)
      ⊎ ((p : ℕ) × (h : ℕ) × (highest floor l ≡ some (p, h)) × IsBest floor l p h)
highest-cases floor l = elim (Option-cases (highest floor l)) [
  | inl n ↦ inl (n, highest-none floor l n)
  | inr ((p, h), e) ↦ inr (p, h, e, highest-IsMax floor l p h e)
]

module _ (M : Redb) (L : HeaderLib) (T : TxLib) where
  -- A peer that reports a height above the tip, for headers: the best one.
  abbrev pub ForHeaders : SyncEngine M L T → SyncEngine M L T × Response L T → Type 0
  ForHeaders s result =
      (p : ℕ) × (h : ℕ) × IsBest s.tip_height s.peer_heights p h
      × (result
          ≡ (record s { sync_peer = some p; state = syncing_headers }, getheaders_from M L T s p))

  -- No peer reports a height above the tip, and blocks are missing: the best peer above the validated
  -- height, for blocks.
  abbrev pub ForBlocks : SyncEngine M L T → SyncEngine M L T × Response L T → Type 0
  ForBlocks s result =
      (p : ℕ) × (h : ℕ) × All (λ e. e.1 ≤ s.tip_height) s.peer_heights
      × (is_some s.consensus ≡ true)
      × (s.validated_height < s.tip_height)
      × IsBest s.validated_height s.peer_heights p h
      × (result
          ≡ request_next_blocks M L T (record s { sync_peer = some p; state = syncing_blocks }) p)

  -- No peer is of use: nothing changes, and nothing is sent.
  abbrev pub NoPeer : SyncEngine M L T → SyncEngine M L T × Response L T → Type 0
  NoPeer s result =
      All (λ e. e.1 ≤ s.tip_height) s.peer_heights
      × ((is_some s.consensus ≡ false)
          ⊎ ((s.tip_height ≤ s.validated_height)
              ⊎ All (λ e. e.1 ≤ s.validated_height) s.peer_heights))
      × (result ≡ (s, none))

  blocks_needed-cases :
      (s : SyncEngine M L T)
      → ((blocks_needed M L T s ≡ true)
          × (is_some s.consensus ≡ true)
          × (s.validated_height < s.tip_height))
        ⊎ ((blocks_needed M L T s ≡ false)
            × ((is_some s.consensus ≡ false) ⊎ (s.tip_height ≤ s.validated_height)))
  unfolding blocks_needed
  blocks_needed-cases s = elim (Bool-cases (is_some s.consensus)) [
    | inr e ↦ inr (rw (e) refl, inl e)
    | inl e ↦ elim (Bool-cases (ltb s.validated_height s.tip_height)) [
      | inl f ↦ inl (rw (e, f) refl, e, ltb→lt _ _ f)
      | inr f ↦ inr (rw (e, f) refl, inr (ltb-false _ _ f))
    ]
  ]

  -- With a sync peer nothing happens. Without one, the engine takes a listed peer of the greatest
  -- height, if that is above the tip, and asks it for headers; else, if blocks are missing, one of the
  -- greatest height, if that is above the validated height, and asks it for blocks; else none.
  pub try_select_sync_peer_lem :
      (s : SyncEngine M L T)
      → ((is_some s.sync_peer ≡ true) × (try_select_sync_peer M L T s ≡ (s, none)))
        ⊎ ((s.sync_peer ≡ none)
            × (ForHeaders s (try_select_sync_peer M L T s)
                ⊎ (ForBlocks s (try_select_sync_peer M L T s)
                    ⊎ NoPeer s (try_select_sync_peer M L T s))))
  unfolding try_select_sync_peer select_from select_for_blocks claim_headers claim_blocks
  try_select_sync_peer_lem s = elim (Option-cases s.sync_peer) [
    | inr (q, there) ↦ inl (rw (there, is_some) refl, rw (there, is_some) refl)
    | inl alone ↦ inr (
      alone,
      elim (highest-cases s.tip_height s.peer_heights) [
        | inr (p, h, e, best) ↦
            inl (
              p,
              h,
              best,
              rw (alone, is_some) (rw (e, select_from) (unfold getheaders_from in refl)),
            )
        | inl (e, low) ↦ inr (elim (blocks_needed-cases s) [
          | inr (enough, why) ↦ inr (
            low,
            elim why [ inl c ↦ inl c | inr v ↦ inr (inl v) ],
            rw (alone, is_some) (rw (e, select_from) (rw (enough) refl)),
          )
          | inl (missing, kernel, behind) ↦ elim (highest-cases s.validated_height s.peer_heights) [
            | inr (p, h, f, best) ↦ inl (
              p,
              h,
              low,
              kernel,
              behind,
              best,
              rw (alone, is_some) (rw (e, select_from) (rw (missing, f) refl)),
            )
            | inl (f, below) ↦ inr (
              low,
              inr (inr below),
              rw (alone, is_some) (rw (e, select_from) (rw (missing, f) refl)),
            )
          ]
        ])
      ],
    )
  ]
