-- ===== src/Prune/Order.antt =====
-- The order of the block files in `prune_block_files` of crates/wolfe-node/src/main.rs: by their numbers, from the
-- lowest.
use bitcoin_wolfe.Prelude.{
  ℕ, suc, zero, ◌<◌, ◌≡◌, ◌≢◌, ◌⊎◌, inl, inr, sym, true, List, [], ◌∷◌, All, In, arith, Bool-cases,
  take, leb→le, leb-false,
}
use bitcoin_wolfe.Sort.{
  sort_insert, sort_by, sort_insert-All, sort_by-All, IsSorted, sort_by-IsSorted,
}
use bitcoin_wolfe.Prune.{by_number}
use bitcoin_wolfe.Prune.Numbers.{Apart, Unrepeated}

-- Every file has a lower number than all that follow it.
abbrev pub Ascending : List (ℕ × ℕ) → Type 0
Ascending [] = Unit
Ascending (f ∷ files) = All (λ g. f.0 < g.0) files × Ascending files

sort_insert-Unrepeated :
    (f : ℕ × ℕ) (files : List (ℕ × ℕ))
    → Apart f.0 files
    → Unrepeated files
    → Unrepeated (sort_insert by_number f files)
unfolding sort_insert
sort_insert-Unrepeated f [] apart u = (tt, tt)
sort_insert-Unrepeated f (g ∷ files) (ne, apart) (others, u) = elim (Bool-cases (by_number f g)) [
  | inl le ↦ rw (le) (((ne, apart), (others, u)))
  | inr gt ↦ rw (gt) (
      (
        sort_insert-All by_number (λ h. h.0 ≢ g.0) f files (λ e. ne (sym e)) others,
        sort_insert-Unrepeated f files apart u,
      ))
]

pub sort_by-Unrepeated :
    (files : List (ℕ × ℕ)) → Unrepeated files → Unrepeated (sort_by by_number files)
unfolding sort_by
sort_by-Unrepeated [] u = tt
sort_by-Unrepeated (f ∷ files) (apart, u) =
    sort_insert-Unrepeated f (sort_by by_number files)
      (sort_by-All by_number (λ h. h.0 ≢ f.0) files apart) (sort_by-Unrepeated files u)

pub take-All {κ} :
    (P : ℕ × ℕ → Type κ) (n : ℕ) (files : List (ℕ × ℕ)) → All P files → All P (take n files)
take-All P zero files a = tt
take-All P (suc n) [] a = tt
take-All P (suc n) (f ∷ files) (p, a) = (p, take-All P n files a)

pub take-Unrepeated : (n : ℕ) (files : List (ℕ × ℕ)) → Unrepeated files → Unrepeated (take n files)
take-Unrepeated zero files u = tt
take-Unrepeated (suc n) [] u = tt
take-Unrepeated (suc n) (f ∷ files) (apart, u) =
    (take-All (λ h. h.0 ≢ f.0) n files apart, take-Unrepeated n files u)

above :
    (f : ℕ × ℕ) (files : List (ℕ × ℕ))
    → All (λ g. by_number f g ≡ true) files
    → Apart f.0 files
    → All (λ g. f.0 < g.0) files
above f [] first apart = tt
above f (g ∷ files) (le, first) (ne, apart) =
    (omega (arith, leb→le f.0 g.0 le, ne), above f files first apart)

IsSorted-Ascending :
    (files : List (ℕ × ℕ)) → IsSorted by_number files → Unrepeated files → Ascending files
IsSorted-Ascending [] s u = tt
IsSorted-Ascending (f ∷ files) (first, s) (apart, u) =
    (above f files first apart, IsSorted-Ascending files s u)

total_order : (a b : ℕ × ℕ) → (by_number a b ≡ true) ⊎ (by_number b a ≡ true)
total_order a b = elim (Bool-cases (by_number a b)) [
  | inl e ↦ inl e
  | inr e ↦ inr (ground (arith, leb-false a.0 b.0 e))
]

trans_order : (a b c : ℕ × ℕ) → by_number a b ≡ true → by_number b c ≡ true → by_number a c ≡ true
trans_order a b c e f = ground (arith, leb→le a.0 b.0 e, leb→le b.0 c.0 f)

trivial : (files : List (ℕ × ℕ)) → All (λ f. Unit {0}) files
trivial [] = tt
trivial (f ∷ files) = (tt, trivial files)

pub sort_by-Ascending :
    (files : List (ℕ × ℕ)) → Unrepeated files → Ascending (sort_by by_number files)
sort_by-Ascending files u =
    IsSorted-Ascending (sort_by by_number files)
      (sort_by-IsSorted by_number (λ f. Unit {0}) (λ a b p q. total_order a b) trans_order files
        (trivial files))
      (sort_by-Unrepeated files u)

In-sort_insert :
    (f g : ℕ × ℕ) (files : List (ℕ × ℕ)) → In f (g ∷ files) → In f (sort_insert by_number g files)
unfolding sort_insert
In-sort_insert f g [] i = i
In-sort_insert f g (h ∷ files) i = elim (Bool-cases (by_number g h)) [
  | inl le ↦ rw (le) i
  | inr gt ↦ rw (gt) (elim i [
    | inl e ↦ inr (In-sort_insert f g files (inl e))
    | inr (inl e) ↦ inl e
    | inr (inr j) ↦ inr (In-sort_insert f g files (inr j))
  ])
]

-- Sorting loses no file.
pub In-sort_by : (f : ℕ × ℕ) (files : List (ℕ × ℕ)) → In f files → In f (sort_by by_number files)
unfolding sort_by
In-sort_by f [] i = i
In-sort_by f (g ∷ files) (inl e) = In-sort_insert f g (sort_by by_number files) (inl e)
In-sort_by f (g ∷ files) (inr i) =
    In-sort_insert f g (sort_by by_number files) (inr (In-sort_by f files i))
