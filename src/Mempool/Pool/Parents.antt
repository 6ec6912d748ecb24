-- ===== src/Mempool/Pool/Parents.antt =====
-- The parents of a transaction in the mempool of crates/wolfe-mempool/src/pool.rs: their counts of
-- descendants, and the ancestors that they bring.
use bitcoin_wolfe.Prelude.{
  ℕ, zero, suc, ◌+◌, ◌%◌, ◌^◌, ◌<◌, ◌≡◌, ◌↔◌, refl, sym, ap, ◌∙◌, inl, inr, Option, none, some,
  List, [], ◌∷◌, All, arith, ite, if_pos, if_neg, ℕ_discrete, Option-cases, Bool-cases, leb, leb→le,
  leb-false,
}
use bitcoin_wolfe.Map.{get-insert_self, get-insert_ne}
use bitcoin_wolfe.Mempool.Types.{F64, TxLib, MempoolEntry, Entries, OutPoint, ok}
use bitcoin_wolfe.Mempool.Policy.Check.{then_ok}
use bitcoin_wolfe.Mempool.Pool.{
  add64, check_parent, check_descendants, bump, bump_parents, parent_count, count_ancestors,
}

-- How many inputs spend an output of the transaction.
abbrev pub times : ℕ → List OutPoint → ℕ
times k [] = 0
times k (o ∷ rest) = ite (ℕ_discrete o.txid k) (suc (times k rest)) (times k rest)

module _ (F : F64) (B : TxLib) where
  -- An entry with so many descendants more, modulo 2^64.
  abbrev pub raised : ℕ → Option (MempoolEntry F B) → Option (MempoolEntry F B)
  raised zero o = o
  raised (suc n) none = none
  raised (suc n) (some e) =
      some (record e { descendant_count = (e.descendant_count + suc n) % 2 ^ 64 })

  raised-raised : (n : ℕ) (o : Option (MempoolEntry F B)) → raised n (raised 1 o) ≡ raised (suc n) o
  raised-raised zero o = refl
  raised-raised (suc n) none = refl
  raised-raised (suc n) (some e) = ap (λ d. some (record e { descendant_count = d })) (omega arith)

  -- Fewer descendants than the limit, where there is an entry.
  abbrev pub Below : ℕ → Option (MempoolEntry F B) → Type 0
  Below limit none = Unit
  Below limit (some e) = e.descendant_count < limit

  module _ (E : Entries F B) where
    check_parent-Below :
        (limit : ℕ) (o : Option (MempoolEntry F B))
        → (check_parent F B E limit o ≡ ok tt) ↔ Below limit o
    unfolding check_parent
    check_parent-Below limit none = (λ h. tt, λ h. refl)
    check_parent-Below limit (some e) = elim (Bool-cases (leb limit e.descendant_count)) [
      | inl many ↦ (
        λ h. absurd (ground (arith, many, h)),
        λ h. absurd (omega (arith, h, leb→le limit e.descendant_count many)),
      )
      | inr few ↦ (λ h. leb-false limit e.descendant_count few, λ h. rw (few) refl)
    ]

    -- Every parent in the mempool has fewer descendants than the limit.
    pub check_descendants-Below :
        (m : E.Map) (limit : ℕ) (inputs : List OutPoint)
        → (check_descendants F B E m limit inputs ≡ ok tt)
          ↔ All (λ o. Below limit (E.get m o.txid)) inputs
    unfolding check_descendants
    check_descendants-Below m limit [] = (λ h. tt, λ h. refl)
    check_descendants-Below m limit (o ∷ rest) =
        let (to, from) = check_parent-Below limit (E.get m o.txid) in
        let (to', from') = check_descendants-Below m limit rest in
        (λ h. let (a, b) = then_ok F B _ _ h in (to a, to' b), λ (a, b). rw (from a) (from' b))

    get-bump :
        (m : E.Map) (id k : ℕ)
        → E.get (bump F B E m id (E.get m id)) k
          ≡ ite (ℕ_discrete id k) (raised 1 (E.get m k)) (E.get m k)
    unfolding bump
    get-bump m id k = elim (ℕ_discrete id k) [
      | yes e ↦ elim (Option-cases (E.get m id)) [
        | inl gone ↦
            let gone' : E.get m k ≡ none = ap (E.get m) (sym e) ∙ gone in
            rw (gone) (
              gone'
              ∙ sym (
                  if_pos (ℕ_discrete id k) e (raised 1 (E.get m k)) (E.get m k)
                  ∙ ap (raised 1) gone'))
        | inr (x, there) ↦
            let there' : E.get m k ≡ some x = ap (E.get m) (sym e) ∙ there in
            rw (there) (
              ap
                (E.get (E.insert m id (record x { descendant_count = add64 x.descendant_count 1 })))
                (sym e)
              ∙ get-insert_self E m id (record x { descendant_count = add64 x.descendant_count 1 })
              ∙ sym (
                  if_pos (ℕ_discrete id k) e (raised 1 (E.get m k)) (E.get m k)
                  ∙ ap (raised 1) there'))
      ]
      | no ne ↦ elim (Option-cases (E.get m id)) [
        | inl gone ↦
            rw (gone) (sym (if_neg (ℕ_discrete id k) ne (raised 1 (E.get m k)) (E.get m k)))
        | inr (x, there) ↦ rw (there) (
            get-insert_ne E m id k (record x { descendant_count = add64 x.descendant_count 1 }) ne
            ∙ sym (if_neg (ℕ_discrete id k) ne (raised 1 (E.get m k)) (E.get m k)))
      ]
    ]

    -- Each parent has one descendant more for each input that spends it, and no other entry changes.
    pub get-bump_parents :
        (m : E.Map) (inputs : List OutPoint) (k : ℕ)
        → E.get (bump_parents F B E m inputs) k ≡ raised (times k inputs) (E.get m k)
    unfolding bump_parents
    get-bump_parents m [] k = refl
    get-bump_parents m (o ∷ rest) k =
        let first = get-bump m o.txid k in
        let later = get-bump_parents (bump F B E m o.txid (E.get m o.txid)) rest k in
        elim (ℕ_discrete o.txid k) [
          | yes e ↦
              later
              ∙ ap (raised (times k rest))
                  (first ∙ if_pos (ℕ_discrete o.txid k) e (raised 1 (E.get m k)) (E.get m k))
              ∙ raised-raised (times k rest) (E.get m k)
              ∙ ap (λ n. raised n (E.get m k))
                  (sym (if_pos (ℕ_discrete o.txid k) e (suc (times k rest)) (times k rest)))
          | no ne ↦
              later
              ∙ ap (raised (times k rest))
                  (first ∙ if_neg (ℕ_discrete o.txid k) ne (raised 1 (E.get m k)) (E.get m k))
              ∙ ap (λ n. raised n (E.get m k))
                  (sym (if_neg (ℕ_discrete o.txid k) ne (suc (times k rest)) (times k rest)))
        ]

    -- One ancestor for each parent in the mempool, and those that it has.
    abbrev pub ancestors : E.Map → List OutPoint → ℕ
    ancestors m [] = 0
    ancestors m (o ∷ rest) =
        elim (E.get m o.txid) [ none ↦ 0 | some e ↦ 1 + e.ancestor_count ] + ancestors m rest

    parent_count-mod :
        (o : Option (MempoolEntry F B)) (n : ℕ)
        → add64 n (parent_count F B E o)
          ≡ (n + elim o [ none ↦ 0 | some e ↦ 1 + e.ancestor_count ]) % 2 ^ 64
    unfolding parent_count
    parent_count-mod none n = refl
    parent_count-mod (some e) n = omega arith

    pub count_ancestors-mod :
        (m : E.Map) (n : ℕ) (inputs : List OutPoint)
        → n < 2 ^ 64
        → count_ancestors F B E m n inputs ≡ (n + ancestors m inputs) % 2 ^ 64
    unfolding count_ancestors
    count_ancestors-mod m n [] small = omega (arith, small)
    count_ancestors-mod m n (o ∷ rest) small =
        let first = parent_count-mod (E.get m o.txid) n in
        let later =
          count_ancestors-mod m (add64 n (parent_count F B E (E.get m o.txid))) rest
            (omega arith) in
        later ∙ omega (arith, first)
