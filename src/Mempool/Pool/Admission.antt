-- ===== src/Mempool/Pool/Admission.antt =====
-- What `add` of crates/wolfe-mempool/src/pool.rs lets in, and the state that it leaves.
use bitcoin_wolfe.Prelude.{
  ◌↔◌, ℕ, ◌^◌, ◌<◌, ◌≤◌, ◌≡◌, refl, sym, ap, Option, none, some, arith, ℕ_discrete,
}
use bitcoin_wolfe.Prelude.{◌+◌, ◌%◌, ◌⊎◌, inl, inr, ◌∙◌, false, ◌||◌, All, ite, ltb, Bool-cases}
use bitcoin_wolfe.Map.Assoc.{measure?}
use bitcoin_wolfe.Mempool.Policy.{check_fee_rate, fee_rate_sat_per_vb}
use bitcoin_wolfe.Mempool.Pool.Parents.{times, raised, Below, ancestors, check_descendants-Below}
use bitcoin_wolfe.Mempool.Types.{
  F64, lt, TxLib, Tx, MempoolConfig, MempoolEntry, Entries, Result, ok, err, ◌>>◌,
}
use bitcoin_wolfe.Mempool.Policy.Check.{IsStandard, check-IsStandard, then_ok}
use bitcoin_wolfe.Mempool.Pool.{
  Mempool, duplicate_rule, add64, new_entry, admit, stored, add, fee_rule, capacity_rule,
  ancestor_rule,
}
use bitcoin_wolfe.Mempool.Pool.Size.{IsCounted, entries_size-insert, entries_size-bump_parents}

module _ (F : F64) (B : TxLib) (E : Entries F B) where
  -- All checks of `add`: the id is new, the policy is met, no fee is known or the rate is not below the
  -- minimum, the size fits, the ancestors are within their limit, and every parent in the mempool has
  -- fewer descendants than the limit.
  pub record Admitted (p : Mempool F B E) (tx : Tx B) (fee : ℕ) (entry : MempoolEntry F B)
      : Type 0 where
    pub absent : E.get p.entries entry.txid ≡ none
    pub standard : IsStandard F B p.config tx
    pub pays : ((fee ≡ 0) × (entry.fee ≡ 0)) ⊎ (lt F entry.fee_rate p.config.min_fee_rate ≡ false)
    pub fits : add64 p.total_bytes entry.size_vbytes ≤ p.max_bytes
    pub ancestors : entry.ancestor_count ≤ p.config.max_ancestors
    pub descendants :
        All (λ o. Below F B p.config.max_descendants (E.get p.entries o.txid)) tx.input

  returned :
      {A : Type 0} (m : Result F (Unit {0})) (x y : A)
      → ((m >> ok x) ≡ ok y)
      → (m ≡ ok tt) × (x ≡ y)
  returned (ok tt) x y e = (refl, ground (arith, e))
  returned (err z) x y e = absurd (ground (arith, e))

  not_present :
      (o : Option (MempoolEntry F B)) (txid : ℕ) → duplicate_rule F B E txid o ≡ ok tt → o ≡ none
  unfolding duplicate_rule
  not_present none txid e = refl
  not_present (some x) txid e = absurd (ground (arith, e))

  has_room :
      (p : Mempool F B E) (size : ℕ)
      → capacity_rule F B E p size ≡ ok tt
      → add64 p.total_bytes size ≤ p.max_bytes
  unfolding capacity_rule
  has_room p size e = ground arith

  few_ancestors : (limit n : ℕ) → ancestor_rule F B E limit n ≡ ok tt → n ≤ limit
  unfolding ancestor_rule
  few_ancestors limit n e = ground arith

  fee_rule_iff :
      (c : MempoolConfig F) (fee effective : ℕ) (rate : F.Float)
      → (fee_rule F B E c fee effective rate ≡ ok tt)
        ↔ (((fee ≡ 0) × (effective ≡ 0)) ⊎ (lt F rate c.min_fee_rate ≡ false))
  unfolding fee_rule check_fee_rate
  fee_rule_iff c fee effective rate = elim (Bool-cases (ltb 0 fee || ltb 0 effective)) [
    | inr unknown ↦ (λ h. inl (ground (arith, unknown)), λ h. rw (unknown) refl)
    | inl known ↦ elim (Bool-cases (lt F rate c.min_fee_rate)) [
      | inl low ↦ (
        λ h. absurd (ground (arith, (rw (known, low) at h))),
        λ h. elim h [
          | inl z ↦ absurd (ground (arith, known, z.0, z.1))
          | inr high ↦ absurd (ground (arith, sym low ∙ high))
        ],
      )
      | inr high ↦ (λ h. inr high, λ h. rw (known, high) refl)
    ]
  ]

  admit-Admitted :
      (p : Mempool F B E) (tx : Tx B) (fee : ℕ) (entry : MempoolEntry F B)
      → admit F B E p tx fee entry ≡ ok tt
      → Admitted p tx fee entry
  unfolding admit
  admit-Admitted p tx fee entry e =
      let (e1, r1) = then_ok F B _ _ e in
      let (e2, r2) = then_ok F B _ _ r1 in
      let (e3, r3) = then_ok F B _ _ r2 in
      let (e4, r4) = then_ok F B _ _ r3 in
      let (e5, e6) = then_ok F B _ _ r4 in
      record {
        absent = not_present (E.get p.entries entry.txid) entry.txid e1;
        standard = (check-IsStandard F B p.config tx).0 e2;
        pays = (fee_rule_iff p.config fee entry.fee entry.fee_rate).0 e3;
        fits = has_room p entry.size_vbytes e4;
        ancestors = few_ancestors p.config.max_ancestors entry.ancestor_count e5;
        descendants =
            (check_descendants-Below F B E p.entries p.config.max_descendants tx.input).0 e6;
      }

  stored-IsCounted :
      (p : Mempool F B E) (tx : Tx B) (fee : ℕ) (entry : MempoolEntry F B)
      → IsCounted F B E p
      → entry.size_vbytes < 2 ^ 63
      → Admitted p tx fee entry
      → IsCounted F B E (stored F B E p tx entry)
  unfolding stored
  stored-IsCounted p tx fee entry v small a =
      let put = entries_size-insert F B E p.entries entry.txid entry in
      let none_there =
        ap (measure? ℕ_discrete (λ (e : MempoolEntry F B). e.size_vbytes)) a.absent in
      let bumped = entries_size-bump_parents F B E (E.insert p.entries entry.txid entry) tx.input in
      let counted = v.counted in
      let within = v.within in
      let room = v.room in
      let fits = a.fits in
      record {
        counted = omega (arith, put, none_there, bumped, counted, within, room);
        within = fits;
        room = v.room;
      }

  add-Admitted :
      (now : ℕ) (p p' : Mempool F B E) (tx : Tx B) (fee id : ℕ)
      → add F B E now p tx fee ≡ ok (p', id)
      → Admitted p tx fee (new_entry F B E now p tx fee)
        × (p' ≡ stored F B E p tx (new_entry F B E now p tx fee))
        × (id ≡ B.compute_txid tx)
  unfolding add new_entry
  add-Admitted now p p' tx fee id e =
      let (a, same) = returned _ _ _ e in
      (admit-Admitted p tx fee _ a, sym (ap (λ r. r.0) same), sym (ap (λ r. r.1) same))

  pub add-IsCounted :
      (now : ℕ) (p p' : Mempool F B E) (tx : Tx B) (fee id : ℕ)
      → IsCounted F B E p
      → B.vbytes_ceil tx < 2 ^ 63
      → add F B E now p tx fee ≡ ok (p', id)
      → IsCounted F B E p'
  add-IsCounted now p p' tx fee id v small e =
      let (a, same, _) = add-Admitted now p p' tx fee id e in
      rw (same)
        (stored-IsCounted p tx fee (new_entry F B E now p tx fee) v (unfold new_entry in small) a)

  within :
      (p : Mempool F B E) (size : ℕ)
      → add64 p.total_bytes size ≤ p.max_bytes
      → capacity_rule F B E p size ≡ ok tt
  unfolding capacity_rule
  within p size e = ground arith

  -- The new entry: the transaction with its id and size, no descendants yet, and the ancestors of its
  -- parents, modulo 2^64. A fee that is given is kept.
  pub record IsNew (now : ℕ) (p : Mempool F B E) (tx : Tx B) (fee : ℕ) (entry : MempoolEntry F B)
      : Type 0 where
    pub same_tx : entry.tx ≡ tx
    pub named : entry.txid ≡ B.compute_txid tx
    pub measured : entry.size_vbytes ≡ B.vbytes_ceil tx
    pub timed : entry.added_at ≡ now
    pub childless : entry.descendant_count ≡ 0
    pub ancestry : entry.ancestor_count ≡ ancestors F B E p.entries tx.input % 2 ^ 64
    pub given : (fee ≡ 0) ⊎ (entry.fee ≡ fee)
    pub rated : entry.fee_rate ≡ fee_rate_sat_per_vb F B tx entry.fee

  -- The mempool with the entry: every parent has one descendant more for each input that spends it, no
  -- other entry changes, and the size counter goes up by the size of the entry.
  pub record Stored (p : Mempool F B E) (tx : Tx B) (entry : MempoolEntry F B) (p' : Mempool F B E)
      : Type 0 where
    pub entries :
        (k : ℕ)
        → E.get p'.entries k
          ≡ raised F B
              (times k tx.input)
              (ite (ℕ_discrete entry.txid k) (some entry) (E.get p.entries k))
    pub sum_of_bytes : p'.total_bytes ≡ (p.total_bytes + entry.size_vbytes) % 2 ^ 64
    pub same_config : p'.config ≡ p.config
    pub same_max : p'.max_bytes ≡ p.max_bytes
