-- ===== src/Map/Assoc.antt =====
-- Association lists: the view of a container as the list of its entries.
use bitcoin_wolfe.Prelude.{
  ℕ, ◌+◌, ◌≡◌, refl, Option, none, some, List, [], ◌∷◌, arith, ite, if_pos, if_neg,
}

module _ {K V : Type 0} (dec : Discrete K) where
  unfoldable pub lookup : K → List (K × V) → Option V
  lookup k [] = none
  lookup k ((j, v) ∷ l) = ite (dec j k) (some v) (lookup k l)

  unfoldable pub without : K → List (K × V) → List (K × V)
  without k [] = []
  without k ((j, v) ∷ l) = ite (dec j k) (without k l) ((j, v) ∷ without k l)

  -- No key has two entries.
  abbrev pub Distinct : List (K × V) → Type 0
  Distinct [] = Unit
  Distinct ((k, v) ∷ l) = (lookup k l ≡ none) × Distinct l

  pub lookup-without :
      (k j : K) (l : List (K × V)) → lookup j (without k l) ≡ ite (dec k j) none (lookup j l)
  unfolding lookup without
  lookup-without k j [] = ground arith
  lookup-without k j ((i, v) ∷ l) = ground (arith, lookup-without k j l)

  pub without-Distinct : (k : K) (l : List (K × V)) → Distinct l → Distinct (without k l)
  unfolding without
  without-Distinct k [] d = tt
  without-Distinct k ((i, v) ∷ l) (absent, d) = elim (dec i k) [
    | yes p ↦ rw (if_pos _ p) (without-Distinct k l d)
    | no p ↦ rw (if_neg _ p) (ground (arith, lookup-without k i l), without-Distinct k l d)
  ]

  -- The sum of a measure over the entries.
  unfoldable pub sum_by : (V → ℕ) → List (K × V) → ℕ
  sum_by f [] = 0
  sum_by f ((k, v) ∷ l) = f v + sum_by f l

  abbrev pub measure? : (V → ℕ) → Option V → ℕ
  measure? f none = 0
  measure? f (some v) = f v

  pub without_absent : (k : K) (l : List (K × V)) → lookup k l ≡ none → without k l ≡ l
  unfolding lookup without
  without_absent k [] h = refl
  without_absent k ((i, v) ∷ l) h = ground (arith, without_absent k l)

  pub sum_by-without :
      (f : V → ℕ) (k : K) (l : List (K × V))
      → Distinct l
      → sum_by f (without k l) + measure? f (lookup k l) ≡ sum_by f l
  unfolding lookup without sum_by
  sum_by-without f k [] d = omega arith
  sum_by-without f k ((i, v) ∷ l) (absent, d) =
      ground (arith, sum_by-without f k l d, without_absent i l absent)

  -- Two lists without repeated keys that show the same entries have the same sum.
  pub sum_by-same_lookups :
      (f : V → ℕ) (l m : List (K × V))
      → Distinct l
      → Distinct m
      → ((k : K) → lookup k l ≡ lookup k m)
      → sum_by f l ≡ sum_by f m
  unfolding lookup sum_by
  sum_by-same_lookups f [] [] dl dm same = refl
  sum_by-same_lookups f [] ((k, v) ∷ m) dl dm same = absurd (ground (arith, same k))
  sum_by-same_lookups f ((k, v) ∷ l) m (absent, dl) dm same =
      let rest : sum_by f l ≡ sum_by f (without k m) =
        sum_by-same_lookups f l (without k m) dl (without-Distinct k m dm)
          λ j. ground (arith, same j, lookup-without k j m) in
      ground (arith, rest, sum_by-without f k m dm, same k)
