-- ===== src/Tests/Prune.antt =====
-- Pruning of a concrete directory of block files.
use bitcoin_wolfe.Prelude.{
  ℕ, ◌≡◌, ◌<◌, ◌^◌, ◌-◌, refl, sym, ap, ◌∙◌, some, none, List, [], ◌∷◌, arith, ℕ_discrete, length,
  take,
}
use bitcoin_wolfe.Bytes.{bytes_discrete, str}
use bitcoin_wolfe.Map.Assoc.{lookup, Distinct}
use bitcoin_wolfe.Sort.{sort_by}
use bitcoin_wolfe.Prune.{blk_path, rev_path, blk_number, Directory, total, prune_block_files}
use bitcoin_wolfe.Prune.Names.{blk_number-blk_path}
use bitcoin_wolfe.Prune.Numbers.{Canonical}
use bitcoin_wolfe.Prune.Order.{Ascending}
use bitcoin_wolfe.Prune.Shortest.{Shortest, BlockFiles, prune_block_files-Shortest}

first_name : blk_path 0 ≡ str "blk00000.dat"
unfolding blk_path
first_name = refl

long_name : rev_path 4294967295 ≡ str "rev4294967295.dat"
unfolding rev_path
long_name = refl

-- A number above `u32::MAX`, and a name without a number.
too_large : blk_number (str "blk4294967296.dat") ≡ none
unfolding blk_number bytes_discrete ℕ_discrete
too_large = refl

no_number : blk_number (str "blk.dat") ≡ none
unfolding blk_number bytes_discrete ℕ_discrete
no_number = refl

short_name : blk_number (str "blk+7.dat") ≡ some 7
unfolding blk_number bytes_discrete ℕ_discrete
short_name = refl

-- 70 bytes, 60 of them in twelve block files.
abbrev blocks : Directory
blocks =
    (blk_path 11, 5)
    ∷ (rev_path 0, 3)
    ∷ (blk_path 0, 5)
    ∷ (blk_path 2, 5)
    ∷ (blk_path 1, 5)
    ∷ (blk_path 3, 5)
    ∷ (blk_path 4, 5)
    ∷ (blk_path 5, 5)
    ∷ (blk_path 6, 5)
    ∷ (blk_path 7, 5)
    ∷ (blk_path 8, 5)
    ∷ (blk_path 9, 5)
    ∷ (blk_path 10, 5)
    ∷ (str "lock", 7)
    ∷ []

pruned :
    prune_block_files blocks 64
    ≡ (blk_path 11, 5)
      ∷ (rev_path 0, 0)
      ∷ (blk_path 0, 0)
      ∷ (blk_path 2, 5)
      ∷ (blk_path 1, 5)
      ∷ (blk_path 3, 5)
      ∷ (blk_path 4, 5)
      ∷ (blk_path 5, 5)
      ∷ (blk_path 6, 5)
      ∷ (blk_path 7, 5)
      ∷ (blk_path 8, 5)
      ∷ (blk_path 9, 5)
      ∷ (blk_path 10, 5)
      ∷ (str "lock", 7)
      ∷ []
unfolding prune_block_files sort_by blk_path rev_path lookup bytes_discrete ℕ_discrete
pruned = refl

unfoldable names : Unit {0}
unfolding blk_path rev_path blk_number lookup bytes_discrete ℕ_discrete
names = tt

blocks-Distinct : Distinct bytes_discrete blocks
unfolding names
blocks-Distinct = (
  refl,
  (
    refl,
    (
      refl,
      (refl, (refl, (refl, (refl, (refl, (refl, (refl, (refl, (refl, (refl, (refl, tt))))))))))),
    ),
  ),
)

written :
    (k num : ℕ)
    → k < 2 ^ 32
    → blk_number (blk_path k) ≡ some num
    → (num < 2 ^ 32) × (blk_path k ≡ blk_path num)
written k num h e =
    let same : some k ≡ some num = sym (blk_number-blk_path k h) ∙ e in
    let n : k ≡ num = ground (arith, same) in (omega (arith, h, n), ap blk_path n)

rev_0 : blk_number (rev_path 0) ≡ none
unfolding names
rev_0 = refl

lock : blk_number (str "lock") ≡ none
unfolding names
lock = refl

blocks-Canonical : Canonical blocks
blocks-Canonical = (
  (λ n e. written 11 n (omega arith) e),
  (
    (λ n e. absurd (ground (arith, sym rev_0 ∙ e))),
    (
      (λ n e. written 0 n (omega arith) e),
      (
        (λ n e. written 2 n (omega arith) e),
        (
          (λ n e. written 1 n (omega arith) e),
          (
            (λ n e. written 3 n (omega arith) e),
            (
              (λ n e. written 4 n (omega arith) e),
              (
                (λ n e. written 5 n (omega arith) e),
                (
                  (λ n e. written 6 n (omega arith) e),
                  (
                    (λ n e. written 7 n (omega arith) e),
                    (
                      (λ n e. written 8 n (omega arith) e),
                      (
                        (λ n e. written 9 n (omega arith) e),
                        (
                          (λ n e. written 10 n (omega arith) e),
                          ((λ n e. absurd (ground (arith, sym lock ∙ e))), tt),
                        ),
                      ),
                    ),
                  ),
                ),
              ),
            ),
          ),
        ),
      ),
    ),
  ),
)

blocks_small : total blocks < 2 ^ 64
unfolding total
blocks_small = omega arith

prune_block_files-Shortest_example :
    (files : List (ℕ × ℕ)) × Ascending files
    × BlockFiles blocks files
    × Shortest 64 (take (length files - 10) files) blocks (prune_block_files blocks 64)
prune_block_files-Shortest_example =
    prune_block_files-Shortest blocks 64 blocks-Distinct blocks-Canonical blocks_small

blk_number-blk_path_example : blk_number (blk_path 123456) ≡ some 123456
blk_number-blk_path_example = blk_number-blk_path 123456 (omega arith)
