-- ===== src/Prune/Files.antt =====
-- Sizes in the directory of `prune_block_files` of crates/wolfe-node/src/main.rs.
use bitcoin_wolfe.Prelude.{
  ℕ, ◌+◌, ◌≡◌, ◌≢◌, inl, inr, refl, ap, ◌∙◌, none, some, [], ◌∷◌, arith, ◌==◌, ==_iff, Bool-cases,
  Option-cases,
}
use bitcoin_wolfe.Bytes.{Bytes, bytes_discrete}
use bitcoin_wolfe.Map.Assoc.{lookup, Distinct}
use bitcoin_wolfe.Prune.{
  blk_path, rev_path, Directory, size_of, total, truncate, free_rev, free_pair,
}

pub size_of-truncate :
    (name n : Bytes) (dir : Directory) → name ≢ n → size_of n (truncate name dir) ≡ size_of n dir
unfolding truncate lookup
size_of-truncate name n [] ne = refl
size_of-truncate name n ((i, size) ∷ dir) ne = ground (arith, ne, size_of-truncate name n dir ne)

truncate_absent :
    (name : Bytes) (dir : Directory) → size_of name dir ≡ none → truncate name dir ≡ dir
unfolding truncate lookup
truncate_absent name [] e = refl
truncate_absent name ((i, size) ∷ dir) e = ground (arith, e, truncate_absent name dir)

truncate_missing :
    (name n : Bytes) (dir : Directory) → size_of n dir ≡ none → size_of n (truncate name dir) ≡ none
unfolding truncate lookup
truncate_missing name n [] e = refl
truncate_missing name n ((i, size) ∷ dir) e = ground (arith, e, truncate_missing name n dir)

pub truncate-Distinct :
    (name : Bytes) (dir : Directory)
    → Distinct bytes_discrete dir
    → Distinct bytes_discrete (truncate name dir)
unfolding truncate
truncate-Distinct name [] d = tt
truncate-Distinct name ((i, size) ∷ dir) (absent, d) =
    (truncate_missing name i dir absent, truncate-Distinct name dir d)

total-truncate :
    (name : Bytes) (dir : Directory) (size : ℕ)
    → Distinct bytes_discrete dir
    → size_of name dir ≡ some size
    → total (truncate name dir) + size ≡ total dir
unfolding truncate lookup total
total-truncate name [] size d e = absurd (ground (arith, e))
total-truncate name ((i, s) ∷ dir) size (absent, d) e =
    ground (arith, e, truncate_absent i dir absent, total-truncate name dir size d)

truncate_empty :
    (name : Bytes) (dir : Directory)
    → Distinct bytes_discrete dir
    → size_of name dir ≡ some 0
    → truncate name dir ≡ dir
unfolding truncate lookup
truncate_empty name [] d e = refl
truncate_empty name ((i, s) ∷ dir) (absent, d) e =
    ground (arith, e, truncate_absent i dir absent, truncate_empty name dir d)

-- Both files of a number, emptied.
abbrev pub empty_pair : ℕ → Directory → Directory
empty_pair num dir = truncate (rev_path num) (truncate (blk_path num) dir)

pub empty_pair-Distinct :
    (num : ℕ) (dir : Directory)
    → Distinct bytes_discrete dir
    → Distinct bytes_discrete (empty_pair num dir)
empty_pair-Distinct num dir d =
    truncate-Distinct (rev_path num) (truncate (blk_path num) dir)
      (truncate-Distinct (blk_path num) dir d)

free_rev-truncate :
    (num : ℕ) (dir : Directory)
    → Distinct bytes_discrete dir
    → ((free_rev num dir (size_of (rev_path num) dir)).1 ≡ truncate (rev_path num) dir)
      × ((free_rev num dir (size_of (rev_path num) dir)).0 + total (truncate (rev_path num) dir)
          ≡ total dir)
free_rev-truncate num dir d = elim (Option-cases (size_of (rev_path num) dir)) [
  | inl e ↦ let same = truncate_absent (rev_path num) dir e in rw (e, same) (refl, omega arith)
  | inr (size, e) ↦ elim (Bool-cases (size == 0)) [
    | inl z ↦
        let zero : size ≡ 0 = (==_iff size 0).0 z in
        let same = truncate_empty (rev_path num) dir d (e ∙ ap some zero) in
        rw (e, z, same) (refl, omega arith)
    | inr nz ↦ rw (e, nz) (refl, omega (arith, total-truncate (rev_path num) dir size d e))
  ]
]

-- A pair that is freed is emptied, and what is freed is what the directory has lost.
pub free_pair-empty_pair :
    (num size : ℕ) (dir : Directory)
    → Distinct bytes_discrete dir
    → size_of (blk_path num) dir ≡ some size
    → ((free_pair num size dir).1 ≡ empty_pair num dir)
      × ((free_pair num size dir).0 + total (empty_pair num dir) ≡ total dir)
unfolding free_pair
free_pair-empty_pair num size dir d e =
    let (same, sum) =
      free_rev-truncate num (truncate (blk_path num) dir)
        (truncate-Distinct (blk_path num) dir d) in
    rw (e) (same, omega (arith, sum, total-truncate (blk_path num) dir size d e))

-- The files of other numbers keep their sizes.
pub size_of-empty_pair :
    (num : ℕ) (n : Bytes) (dir : Directory)
    → blk_path num ≢ n
    → rev_path num ≢ n
    → size_of n (empty_pair num dir) ≡ size_of n dir
size_of-empty_pair num n dir nb nr =
    size_of-truncate (rev_path num) n (truncate (blk_path num) dir) nr
    ∙ size_of-truncate (blk_path num) n dir nb
