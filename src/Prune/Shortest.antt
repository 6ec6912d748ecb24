-- ===== src/Prune/Shortest.antt =====
-- What `prune_block_files` of crates/wolfe-node/src/main.rs empties.
use mathlib.Core.Path.{subst}
use bitcoin_wolfe.Prelude.{
  ℕ, suc, zero, ◌+◌, ◌-◌, ◌%◌, ◌^◌, ◌<◌, ◌≤◌, ◌≡◌, ◌≢◌, ◌⊎◌, ◌↔◌, inl, inr, refl, sym, ap, ◌∙◌, In,
  List, [], ◌∷◌, All, arith, ◌==◌, ==_iff, leb, leb→le, leb-false, Bool-cases, take, length,
}
use bitcoin_wolfe.Bytes.{Bytes, bytes_discrete}
use bitcoin_wolfe.Map.Assoc.{Distinct}
use bitcoin_wolfe.Sort.{sort_by, sort_by-All}
use bitcoin_wolfe.Prune.{
  blk_path, rev_path, Directory, size_of, total, blk_files, by_number, free_pair, prune_loop,
  prune_block_files,
}
use bitcoin_wolfe.Prune.Files.{
  empty_pair, empty_pair-Distinct, size_of-empty_pair, free_pair-empty_pair,
}
use bitcoin_wolfe.Prune.Numbers.{
  Canonical, IsBlockFile, Listed, Unrepeated, Listed-empty_pair, blk_files-Unrepeated,
  blk_files-Listed, IsBlockFile-In,
}
use bitcoin_wolfe.Prune.Order.{
  Ascending, sort_by-Ascending, sort_by-Unrepeated, In-sort_by, take-All, take-Unrepeated,
}

-- The pairs of these files, emptied one after the other.
abbrev pub empty_pairs : List (ℕ × ℕ) → Directory → Directory
empty_pairs [] dir = dir
empty_pairs ((num, size) ∷ files) dir = empty_pairs files (empty_pair num dir)

-- None of the two files of a pair of the list.
abbrev pub Outside : List (ℕ × ℕ) → Bytes → Type 0
Outside files name = All (λ f. (blk_path f.0 ≢ name) × (rev_path f.0 ≢ name)) files

size_of-empty_pairs :
    (files : List (ℕ × ℕ)) (name : Bytes) (dir : Directory)
    → Outside files name
    → size_of name (empty_pairs files dir) ≡ size_of name dir
size_of-empty_pairs [] name dir out = refl
size_of-empty_pairs ((num, size) ∷ files) name dir ((nb, nr), out) =
    size_of-empty_pairs files name (empty_pair num dir) out ∙ size_of-empty_pair num name dir nb nr

-- The first `count` pairs are emptied, which is the shortest run of them that brings the directory
-- down to the target, or all of them where none does.
pub record Shortest (target : ℕ) (files : List (ℕ × ℕ)) (dir dir' : Directory) : Type 0 where
  pub count : ℕ
  pub within : count ≤ length files
  pub emptied : dir' ≡ empty_pairs (take count files) dir
  pub enough : (total dir' ≤ target) ⊎ (count ≡ length files)
  pub needed : (j : ℕ) → j < count → target < total (empty_pairs (take j files) dir)
  pub kept : (name : Bytes) → Outside files name → size_of name dir' ≡ size_of name dir

-- The pairs before the first one, and before the later ones.
needed_first :
    (target num size : ℕ) (files : List (ℕ × ℕ)) (dir : Directory) (count : ℕ)
    → target < total dir
    → ((j : ℕ) → j < count → target < total (empty_pairs (take j files) (empty_pair num dir)))
    → (j : ℕ) → j < suc count
    → target < total (empty_pairs (take j ((num, size) ∷ files)) dir)
needed_first target num size files dir count now later zero h = now
needed_first target num size files dir count now later (suc j) h = later j (omega (arith, h))

prune_loop-Shortest :
    (target excess freed : ℕ) (files : List (ℕ × ℕ)) (dir : Directory)
    → freed + total dir ≡ target + excess
    → target + excess < 2 ^ 64
    → Distinct bytes_discrete dir
    → Listed dir files
    → Unrepeated files
    → Shortest target files dir (prune_loop excess freed dir files)
unfolding prune_loop
prune_loop-Shortest target excess freed [] dir sum small d l u = record {
  count = 0;
  within = omega arith;
  emptied = refl;
  enough = inr refl;
  needed = λ j h. absurd (omega (arith, h));
  kept = λ name out. refl;
}
prune_loop-Shortest target excess freed ((num, size) ∷ files) dir sum small d ((fits, e, full), l)
      (apart, u) =
    elim (Bool-cases (leb excess freed)) [
      | inl done ↦ rw (done) record {
        count = 0;
        within = omega arith;
        emptied = refl;
        enough = inl (omega (arith, sum, leb→le excess freed done));
        needed = λ j h. absurd (omega (arith, h));
        kept = λ name out. refl;
      }
      | inr more ↦
          let pair = free_pair num size dir in
          let (same, lost) = free_pair-empty_pair num size dir d e in
          let sum' : (freed + pair.0) % 2 ^ 64 + total (empty_pair num dir) ≡ target + excess =
            omega (arith, sum, lost, small) in
          let rest =
            prune_loop-Shortest target excess ((freed + pair.0) % 2 ^ 64) files (empty_pair num dir)
              sum' small (empty_pair-Distinct num dir d)
              (Listed-empty_pair num dir files fits apart l) u in
          rw (more, same)
            (record {
              count = suc rest.count;
              within = omega (arith, rest.within);
              emptied = rest.emptied;
              enough = elim rest.enough [ inl h ↦ inl h | inr h ↦ inr (ap suc h) ];
              needed =
                  needed_first target num size files dir rest.count
                    (omega (arith, sum, leb-false excess freed more)) rest.needed;
              kept = λ name out.
                  rest.kept name out.1 ∙ size_of-empty_pair num name dir out.0.0 out.0.1;
            })
    ]

-- The block files but the ten of the highest numbers, as they are sorted.
abbrev oldest : Directory → List (ℕ × ℕ)
oldest dir = let files = sort_by by_number (blk_files dir) in take (length files - 10) files

none-Shortest :
    (target : ℕ) (files : List (ℕ × ℕ)) (dir : Directory)
    → (total dir ≤ target) ⊎ (files ≡ [])
    → Shortest target files dir dir
none-Shortest target files dir why = record {
  count = 0;
  within = omega arith;
  emptied = refl;
  enough = elim why [ inl h ↦ inl h | inr e ↦ inr (ap length (sym e)) ];
  needed = λ j h. absurd (omega (arith, h));
  kept = λ name out. refl;
}

In-All {κ} :
    (P : ℕ × ℕ → Type κ) (f : ℕ × ℕ) (files : List (ℕ × ℕ)) → All P files → In f files → P f
In-All P f [] all i = absurd i
In-All P f (g ∷ files) (p, all) (inl e) = subst P e p
In-All P f (g ∷ files) (p, all) (inr i) = In-All P f files all i

sorted-Listed :
    (dir : Directory)
    → Canonical dir
    → Distinct bytes_discrete dir
    → Listed dir (sort_by by_number (blk_files dir))
sorted-Listed dir named d =
    sort_by-All by_number (λ f. IsBlockFile dir f.0 f.1) (blk_files dir)
      (blk_files-Listed dir named d)

prune_block_files-oldest :
    (dir : Directory) (target : ℕ)
    → Distinct bytes_discrete dir
    → Canonical dir
    → total dir < 2 ^ 64
    → Shortest target (oldest dir) dir (prune_block_files dir target)
unfolding prune_block_files
prune_block_files-oldest dir target d named small =
    let files = sort_by by_number (blk_files dir) in
    let prunable = length files - 10 in
    let exact : total dir % 2 ^ 64 ≡ total dir = omega (arith, small) in
    elim (Bool-cases (leb (total dir) target)) [
      | inl fits ↦
          rw (exact, fits)
            (none-Shortest target (oldest dir) dir (inl (leb→le (total dir) target fits)))
      | inr over ↦ elim (Bool-cases (prunable == 0)) [
        | inl none_left ↦
            let gone : oldest dir ≡ [] = ap (λ n. take n files) ((==_iff prunable 0).0 none_left) in
            rw (exact, over, none_left) (none-Shortest target (oldest dir) dir (inr gone))
        | inr some_left ↦
            let above = leb-false (total dir) target over in
            rw (exact, over, some_left)
              (prune_loop-Shortest target (total dir - target) 0 (oldest dir) dir
                (omega (arith, above)) (omega (arith, above, small)) d
                (take-All (λ f. IsBlockFile dir f.0 f.1) prunable files (sorted-Listed dir named d))
                (take-Unrepeated prunable files
                  (sort_by-Unrepeated (blk_files dir) (blk_files-Unrepeated dir named d))))
      ]
    ]

-- The list has just the block files of the directory that are not empty.
abbrev pub BlockFiles : Directory → List (ℕ × ℕ) → Type 0
BlockFiles dir files = (num size : ℕ) → In (num, size) files ↔ IsBlockFile dir num size

-- Take the block files that are not empty, from the lowest number to the highest, without the last
-- ten of them. Pruning empties the first pairs of these: the shortest run that brings the directory
-- down to the target, or all where none does. Every file that is in none of these pairs keeps its
-- size. The names of the directory are distinct, its block files are named as their numbers are
-- written, and its size is below 2^64.
pub prune_block_files-Shortest :
    (dir : Directory) (target : ℕ)
    → Distinct bytes_discrete dir
    → Canonical dir
    → total dir < 2 ^ 64
    → (files : List (ℕ × ℕ)) × Ascending files
      × BlockFiles dir files
      × Shortest target (take (length files - 10) files) dir (prune_block_files dir target)
prune_block_files-Shortest dir target d named small = (
  sort_by by_number (blk_files dir),
  sort_by-Ascending (blk_files dir) (blk_files-Unrepeated dir named d),
  (λ num size. (
    λ i.
        In-All (λ f. IsBlockFile dir f.0 f.1) (num, size) (sort_by by_number (blk_files dir))
          (sorted-Listed dir named d) i,
    λ is. In-sort_by (num, size) (blk_files dir) (IsBlockFile-In dir num size is),
  )),
  prune_block_files-oldest dir target d named small,
)
