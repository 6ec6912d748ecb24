-- ===== src/Sort.antt =====
-- The standard library's stable `sort_by`, as an insertion sort: a stable sort has one result.
-- `le x y` is the test that `x` may stand before `y`, `cmp(x, y) != Greater`.
use mathlib.Core.List.{Perm}
use mathlib.Core.List.Perm
use bitcoin_wolfe.Prelude.{
  ◌≡◌, ◌⊎◌, inl, inr, Bool, true, List, [], ◌∷◌, All, Bool-cases, arith, if◌then◌else◌,
}

module _ {ℓ} {A : Type ℓ} (le : A → A → Bool) where
  unfoldable pub sort_insert : A → List A → List A
  sort_insert x [] = x ∷ []
  sort_insert x (y ∷ ys) = if le x y then x ∷ y ∷ ys else y ∷ sort_insert x ys

  unfoldable pub sort_by : List A → List A
  unfolding sort_insert
  sort_by [] = []
  sort_by (x ∷ xs) = sort_insert x (sort_by xs)

  -- Every element may stand before all that follow it.
  abbrev pub IsSorted : List A → Type ℓ
  IsSorted [] = Unit
  IsSorted (x ∷ xs) = All (λ y. le x y ≡ true) xs × IsSorted xs

  sort_insert-perm : (x : A) (xs : List A) → Perm (sort_insert x xs) (x ∷ xs)
  unfolding sort_insert
  sort_insert-perm x [] = Perm.refl (x ∷ [])
  sort_insert-perm x (y ∷ ys) = elim (Bool-cases (le x y)) [
    | inl e ↦ rw e (Perm.refl (x ∷ y ∷ ys))
    | inr e ↦ rw e (Perm.trans (Perm.cons y (sort_insert-perm x ys)) (Perm.swap x y ys))
  ]

  pub sort_by-perm : (xs : List A) → Perm (sort_by xs) xs
  unfolding sort_by
  sort_by-perm [] = Perm.refl []
  sort_by-perm (x ∷ xs) =
      Perm.trans (sort_insert-perm x (sort_by xs)) (Perm.cons x (sort_by-perm xs))

  pub sort_insert-All {κ} :
      (P : A → Type κ) (x : A) (xs : List A) → P x → All P xs → All P (sort_insert x xs)
  unfolding sort_insert
  sort_insert-All P x [] p ps = (p, tt)
  sort_insert-All P x (y ∷ ys) p (q, qs) = elim (Bool-cases (le x y)) [
    | inl e ↦ rw e (p, (q, qs))
    | inr e ↦ rw e (q, sort_insert-All P x ys p qs)
  ]

  -- What all elements have, all elements of the sorted list have.
  pub sort_by-All {κ} : (P : A → Type κ) (xs : List A) → All P xs → All P (sort_by xs)
  unfolding sort_by
  sort_by-All P [] ps = tt
  sort_by-All P (x ∷ xs) (p, ps) = sort_insert-All P x (sort_by xs) p (sort_by-All P xs ps)

  All-trans :
      (trans : (a b c : A) → le a b ≡ true → le b c ≡ true → le a c ≡ true) (x y : A) (ys : List A)
      → le x y ≡ true
      → All (λ z. le y z ≡ true) ys
      → All (λ z. le x z ≡ true) ys
  All-trans trans x y [] e ps = tt
  All-trans trans x y (z ∷ ys) e (p, ps) = (trans x y z e p, All-trans trans x y ys e ps)

  module _ {κ} (P : A → Type κ) (total : (a b : A) → P a → P b → (le a b ≡ true) ⊎ (le b a ≡ true))
      (trans : (a b c : A) → le a b ≡ true → le b c ≡ true → le a c ≡ true) where
    sort_insert-IsSorted :
        (x : A) (xs : List A) → P x → All P xs → IsSorted xs → IsSorted (sort_insert x xs)
    unfolding sort_insert
    sort_insert-IsSorted x [] p ps s = (tt, tt)
    sort_insert-IsSorted x (y ∷ ys) p (q, qs) (first, s) = elim (Bool-cases (le x y)) [
      | inl e ↦ rw e ((e, All-trans trans x y ys e first), (first, s))
      | inr e ↦
          let back : le y x ≡ true = ground (arith, total x y p q) in
          rw e
            (sort_insert-All (λ z. le y z ≡ true) x ys back first, sort_insert-IsSorted x ys p qs s)
    ]

    -- On elements where the order is total, the result is sorted.
    pub sort_by-IsSorted : (xs : List A) → All P xs → IsSorted (sort_by xs)
    unfolding sort_by
    sort_by-IsSorted [] ps = tt
    sort_by-IsSorted (x ∷ xs) (p, ps) =
        sort_insert-IsSorted x (sort_by xs) p (sort_by-All P xs ps) (sort_by-IsSorted xs ps)
