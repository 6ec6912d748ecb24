-- ===== src/Sync/Headers/Sound.antt =====
-- What `handle_headers` of crates/wolfe-node/src/sync.rs lets through, whatever a peer sends.
use bitcoin_wolfe.Prelude.{
  ℕ, ◌+◌, ◌%◌, ◌^◌, ◌≡◌, refl, sym, ap, ◌∙◌, true, Option, none, some, List, [], ◌∷◌, ◌++◌, length,
  length-append, arith, if_pos, if_neg, Bool-cases, inl, inr,
}
use bitcoin_wolfe.Bytes.{Bytes, bytes_discrete}
use bitcoin_wolfe.Store.Error.{StoreResult, ok}
use bitcoin_wolfe.Store.Tables.{HeaderLib, Redb, Tables}
use bitcoin_wolfe.Store.Node.{reorganize}
use bitcoin_wolfe.Sync.State.{TxLib, SyncEngine}
use bitcoin_wolfe.Sync.Search.{find_fork_point}
use bitcoin_wolfe.Sync.Headers.{
  Scan, Outcome, go, stop, give_up, rewound, at_fork, check_link, check_pow, scan_header, scan,
  start_scan, then_scan,
}

module _ (M : Redb) (L : HeaderLib) (T : TxLib) where
  -- The list is a chain from the block `base` to the block `tip`, each header with its work done.
  abbrev pub Linked : Bytes → List (L.Header × ℕ) → Bytes → Type 0
  Linked base [] tip = base ≡ tip
  Linked base ((header, height) ∷ rest) tip =
      (L.prev_blockhash header ≡ base)
      × (L.validate_pow header ≡ true)
      × Linked (L.block_hash header) rest tip

  -- The heights, cast to u32, count up from `start`.
  abbrev pub Numbered : ℕ → List (L.Header × ℕ) → Type 0
  Numbered start [] = Unit
  Numbered start ((header, height) ∷ rest) = (height ≡ start % 2 ^ 32) × Numbered (start + 1) rest

  -- What was scanned so far chains from the tip of the engine to `last`.
  pub record Chained (c : Scan M L T) (last : Bytes) : Type 0 where
    pub linked : Linked c.engine.tip_hash c.validated last
    pub numbered : Numbered (c.engine.tip_height + 1) c.validated
    pub next : c.next_height ≡ c.engine.tip_height + 1 + length c.validated

  Linked-snoc :
      (base last : Bytes) (l : List (L.Header × ℕ)) (header : L.Header) (n : ℕ)
      → Linked base l last
      → L.prev_blockhash header ≡ last
      → L.validate_pow header ≡ true
      → Linked base (l ++ (header, n) ∷ []) (L.block_hash header)
  Linked-snoc base last [] header n e p w = (p ∙ sym e, w, refl)
  Linked-snoc base last ((h, k) ∷ l) header n (q, v, rest) p w =
      (q, v, Linked-snoc (L.block_hash h) last l header n rest p w)

  Numbered-snoc :
      (start n : ℕ) (l : List (L.Header × ℕ)) (header : L.Header)
      → Numbered start l
      → n ≡ start + length l
      → Numbered start (l ++ (header, n % 2 ^ 32) ∷ [])
  Numbered-snoc start n [] header c e =
      let q : n ≡ start = omega arith in (ap (λ k. k % 2 ^ 32) q, tt)
  Numbered-snoc start n ((h, k) ∷ l) header (q, c) e =
      (q, Numbered-snoc (start + 1) n l header c (omega arith))

  -- A property of the variables, if the loop has not returned.
  abbrev pub Ensures : Outcome M L T → (Scan M L T → Type 0) → Type 0
  Ensures (go c) P = P c
  Ensures (stop s) P = Unit

  Ensures-then :
      (P Q : Scan M L T → Type 0) (o : Outcome M L T) (f : Scan M L T → Outcome M L T)
      → Ensures o P
      → ((c : Scan M L T) → P c → Ensures (f c) Q)
      → Ensures (then_scan M L T o f) Q
  Ensures-then P Q (go c) f h k = k c h
  Ensures-then P Q (stop s) f h k = tt

  Ensures-go :
      (P : Scan M L T → Type 0) (o : Outcome M L T) (c : Scan M L T) → Ensures o P → o ≡ go c → P c
  Ensures-go P o c h e = rw e at h

  check_pow-Chained :
      (header : L.Header) (c : Scan M L T)
      → Chained c (L.prev_blockhash header)
      → Ensures (check_pow M L T header c) (λ c'. Chained c' c'.prev_hash)
  unfolding check_pow
  check_pow-Chained header c v = elim (Bool-cases (L.validate_pow header)) [
    | inl e ↦
        rw (e, check_pow)
          (record {
            linked =
                Linked-snoc c.engine.tip_hash (L.prev_blockhash header) c.validated header
                  (c.next_height % 2 ^ 32) v.linked refl e;
            numbered =
                Numbered-snoc (c.engine.tip_height + 1) c.next_height c.validated header v.numbered
                  v.next;
            next =
                omega (
                  arith,
                  v.next,
                  length-append c.validated ((header, c.next_height % 2 ^ 32) ∷ []),
                );
          })
    | inr e ↦ rw (e, give_up) tt
  ]

  rewound-Chained :
      (c : Scan M L T) (fork : ℕ) (prev : Bytes) (r : StoreResult (Tables M × List Bytes))
      → Ensures (rewound M L T c fork prev r) (λ c'. Chained c' prev)
  unfolding rewound
  rewound-Chained c fork prev (ok (store', gone)) = record {
    linked = refl;
    numbered = tt;
    next = omega arith;
  }
  rewound-Chained c fork prev _ = tt

  at_fork-Chained :
      (c : Scan M L T) (prev : Bytes) (found : Option ℕ)
      → Ensures (at_fork M L T c prev found) (λ c'. Chained c' prev)
  unfolding at_fork
  at_fork-Chained c prev none = tt
  at_fork-Chained c prev (some fork) =
      rewound-Chained c fork prev
        (reorganize M L c.engine.store (c.engine.tip_height % 2 ^ 32) (fork % 2 ^ 32) [])

  check_link-Chained :
      (c : Scan M L T) (header : L.Header)
      → Chained c c.prev_hash
      → Ensures (check_link M L T c header) (λ c'. Chained c' (L.prev_blockhash header))
  unfolding check_link
  check_link-Chained c header v = elim (bytes_discrete (L.prev_blockhash header) c.prev_hash) [
    | yes p ↦
        rw (if_pos _ p) (record { linked = rw p v.linked; numbered = v.numbered; next = v.next })
    | no p ↦ rw (if_neg _ p) (
        at_fork-Chained c (L.prev_blockhash header)
          (find_fork_point M L c.engine.store c.engine.tip_height (L.prev_blockhash header)))
  ]

  scan-Ensures :
      (c : Scan M L T) (hs : List L.Header)
      → Chained c c.prev_hash
      → Ensures (scan M L T c hs) (λ c'. Chained c' c'.prev_hash)
  unfolding scan scan_header
  scan-Ensures c [] v = v
  scan-Ensures c (header ∷ rest) v =
      Ensures-then (λ c'. Chained c' c'.prev_hash) (λ c'. Chained c' c'.prev_hash)
        (scan_header M L T c header) (λ c'. scan M L T c' rest)
        (Ensures-then (λ c'. Chained c' (L.prev_blockhash header)) (λ c'. Chained c' c'.prev_hash)
          (check_link M L T c header) (check_pow M L T header) (check_link-Chained c header v)
          (check_pow-Chained header))
        (λ c' v'. scan-Ensures c' rest v')

  -- Whatever headers a peer sends, with or without a rewind to a fork point on the way: those that
  -- get through the scan are a chain from the tip of the engine as it is then, each with its proof
  -- of work, at the heights that follow the tip, and `next_height` is the height after the last.
  pub scan-Chained :
      (s : SyncEngine M L T) (hs : List L.Header) (c : Scan M L T)
      → scan M L T (start_scan M L T s) hs ≡ go c
      → Chained c c.prev_hash
  scan-Chained s hs c e =
      Ensures-go (λ c'. Chained c' c'.prev_hash) (scan M L T (start_scan M L T s) hs) c
        (scan-Ensures (start_scan M L T s) hs
          (record { linked = refl; numbered = tt; next = omega arith }))
        e
