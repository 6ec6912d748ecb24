-- ===== src/Sync/Request/Window.antt =====
-- Which blocks `request_next_blocks` of crates/wolfe-node/src/sync.rs asks for.
use bitcoin_wolfe.Prelude.{
  ℕ, zero, suc, ◌+◌, ◌-◌, ◌≤◌, ◌≡◌, ◌⊎◌, refl, sym, ap, min, Bool-cases, Option-cases, inl, inr,
  none, some, List, [], ◌∷◌, ◌++◌, map, ltb, length, arith,
}
use mathlib.Core.List.{append-nil}
use native.Mathlib.Nat.{add-zero}
use bitcoin_wolfe.Bytes.{Bytes}
use bitcoin_wolfe.Store.Tables.{HeaderLib, Redb, Tables}
use bitcoin_wolfe.Sync.State.{SyncEngine, TxLib, Response, witness_block, get_data}
use bitcoin_wolfe.Sync.Search.{stored_hash}
use bitcoin_wolfe.Sync.Request.{collect, send_request, request_next_blocks, block_download_batch}

module _ (M : Redb) (L : HeaderLib) (T : TxLib) where
  -- The hashes are those of the heights from `height` up.
  abbrev pub StoredFrom : Tables M → ℕ → List Bytes → Type 0
  StoredFrom t height [] = Unit
  StoredFrom t height (hash ∷ rest) =
      (stored_hash M L t height ≡ some hash) × StoredFrom t (height + 1) rest

  abbrev pub get_data_for : ℕ → List Bytes → Response L T
  get_data_for peer [] = none
  get_data_for peer (hash ∷ rest) = some (peer, get_data (map witness_block (hash ∷ rest)))

  -- What a request does: it asks for `hashes`, and they are pending.
  pub record Requested (s : SyncEngine M L T) (peer : ℕ) (hashes : List Bytes)
      (s' : SyncEngine M L T) (r : Response L T) : Type 0 where
    pub sent : r ≡ get_data_for peer hashes
    pub pending : s'.pending_blocks ≡ s.pending_blocks ++ hashes
    pub blocks : StoredFrom s.store (s.validated_height + 1) hashes
    pub batch : length hashes ≤ block_download_batch
    pub enough :
        (length hashes ≡ min block_download_batch (s.tip_height - s.validated_height))
        ⊎ (stored_hash M L s.store (s.validated_height + 1 + length hashes) ≡ none)
    pub below_tip : length hashes ≤ s.tip_height - s.validated_height

  collect-StoredFrom :
      (rounds : ℕ) (t : Tables M) (height : ℕ) → StoredFrom t height (collect M L T rounds t height)
  unfolding collect
  collect-StoredFrom zero t height = tt
  collect-StoredFrom (suc k) t height = elim (Option-cases (stored_hash M L t height)) [
    | inl e ↦ rw (e, collect) tt
    | inr (hash, e) ↦ rw (e, collect) (e, collect-StoredFrom k t (height + 1))
  ]

  length-collect-le :
      (rounds : ℕ) (t : Tables M) (height : ℕ) → length (collect M L T rounds t height) ≤ rounds
  unfolding collect
  length-collect-le zero t height = omega arith
  length-collect-le (suc k) t height = ground (arith, length-collect-le k t (height + 1))

  -- The loop stops early only at a height that is not stored.
  collect-enough :
      (rounds : ℕ) (t : Tables M) (height : ℕ)
      → (length (collect M L T rounds t height) ≡ rounds)
        ⊎ (stored_hash M L t (height + length (collect M L T rounds t height)) ≡ none)
  unfolding collect
  collect-enough zero t height = inl refl
  collect-enough (suc k) t height = elim (Option-cases (stored_hash M L t height)) [
    | inl e ↦ rw (e, collect) (inr (rw (add-zero height) e))
    | inr (hash, e) ↦
        let n = length (collect M L T k t (height + 1)) in
        let q : height + 1 + n ≡ height + suc n = omega arith in
        rw (e, collect)
          (elim (collect-enough k t (height + 1)) [
            | inl l ↦ inl (ap suc l)
            | inr r ↦ inr (rw (← q) r)
          ])
  ]

  send_request-pending :
      (s : SyncEngine M L T) (peer : ℕ) (hashes : List Bytes)
      → ((send_request M L T s peer hashes).1 ≡ get_data_for peer hashes)
        × ((send_request M L T s peer hashes).0.pending_blocks ≡ s.pending_blocks ++ hashes)
  unfolding send_request
  send_request-pending s peer [] = (refl, sym (append-nil _))
  send_request-pending s peer (h ∷ hs) = (refl, refl)

  -- The blocks asked for are the stored ones that follow the last validated block, 128 at most and
  -- none above the tip, and exactly they are added to the pending ones. They are fewer than 128 only where they reach
  -- the tip, or a height that is not stored.
  pub request_next_blocks-Requested :
      (s : SyncEngine M L T) (peer : ℕ)
      → (hashes : List Bytes) × Requested s peer hashes
          (request_next_blocks M L T s peer).0
          (request_next_blocks M L T s peer).1
  unfolding request_next_blocks
  request_next_blocks-Requested s peer =
      let start = s.validated_height + 1 in
      let rounds = min (start + block_download_batch) (s.tip_height + 1) - start in
      let hashes = collect M L T rounds s.store start in
      elim (Bool-cases (ltb s.tip_height start)) [
        | inl e ↦ (
          [],
          rw (e, request_next_blocks)
              (record {
                sent = refl;
                pending = sym (append-nil _);
                blocks = tt;
                batch = omega arith;
                enough = inl (grind (arith, e));
                below_tip = omega arith;
              }),
        )
        | inr e ↦ (
          hashes,
          rw (e, request_next_blocks)
              (record {
                sent = (send_request-pending s peer hashes).0;
                pending = (send_request-pending s peer hashes).1;
                blocks = collect-StoredFrom rounds s.store start;
                enough = elim (collect-enough rounds s.store start) [
                  | inl l ↦ inl (omega (arith, l))
                  | inr r ↦ inr r
                ];
                batch = omega (arith, length-collect-le rounds s.store start);
                below_tip = omega (arith, length-collect-le rounds s.store start);
              }),
        )
      ]
