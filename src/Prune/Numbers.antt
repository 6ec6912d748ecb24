-- ===== src/Prune/Numbers.antt =====
-- The block files that `prune_block_files` of crates/wolfe-node/src/main.rs lists, by their numbers.
use bitcoin_wolfe.Prelude.{
  ℕ, ◌^◌, ◌<◌, ◌≡◌, ◌≢◌, inl, inr, refl, sym, ap, ◌∙◌, Option, none, some, List, [], ◌∷◌, All, In,
  arith, ◌==◌, ==_iff, if_pos, if_neg, Bool-cases, Option-cases,
}
use bitcoin_wolfe.Bytes.{Bytes, bytes_discrete}
use bitcoin_wolfe.Map.Assoc.{lookup, Distinct}
use bitcoin_wolfe.Prune.{blk_path, blk_number, Directory, size_of, push_blk, blk_files}
use bitcoin_wolfe.Prune.Files.{empty_pair, size_of-empty_pair}
use bitcoin_wolfe.Prune.Names.{blk_path≢rev_path, blk_number-blk_path}

-- Every block file has the name that is written for its number, below 2^32.
abbrev pub Canonical : Directory → Type 0
Canonical dir =
    All (λ e. (num : ℕ) → blk_number e.0 ≡ some num → (num < 2 ^ 32) × (e.0 ≡ blk_path num)) dir

-- A block file of the directory that is not empty, by its number and its size.
abbrev pub IsBlockFile : Directory → ℕ → ℕ → Type 0
IsBlockFile dir num size = (num < 2 ^ 32) × (size_of (blk_path num) dir ≡ some size) × (size ≢ 0)

abbrev pub Listed : Directory → List (ℕ × ℕ) → Type 0
Listed dir files = All (λ f. IsBlockFile dir f.0 f.1) files

abbrev pub Apart : ℕ → List (ℕ × ℕ) → Type 0
Apart num files = All (λ f. f.0 ≢ num) files

abbrev pub Unrepeated : List (ℕ × ℕ) → Type 0
Unrepeated [] = Unit
Unrepeated (f ∷ files) = Apart f.0 files × Unrepeated files

pub blk_path-injective : (a b : ℕ) → a < 2 ^ 32 → b < 2 ^ 32 → blk_path a ≡ blk_path b → a ≡ b
blk_path-injective a b ha hb e =
    let same : some a ≡ some b =
      sym (blk_number-blk_path a ha) ∙ ap blk_number e ∙ blk_number-blk_path b hb in
    ground (arith, same)

pub Listed-empty_pair :
    (num : ℕ) (dir : Directory) (files : List (ℕ × ℕ))
    → num < 2 ^ 32
    → Apart num files
    → Listed dir files
    → Listed (empty_pair num dir) files
Listed-empty_pair num dir [] small apart l = tt
Listed-empty_pair num dir (f ∷ files) small (ne, apart) ((fits, e, full), l) = (
  (
    fits,
    size_of-empty_pair num (blk_path f.0) dir
          (λ h. ne (sym (blk_path-injective num f.0 small fits h))) (blk_path≢rev_path num f.0)
        ∙ e,
    full,
  ),
  Listed-empty_pair num dir files small apart l,
)

push_blk-All {κ} :
    (P : ℕ × ℕ → Type κ) (num size : ℕ) (files : List (ℕ × ℕ))
    → (size ≢ 0 → P (num, size))
    → All P files
    → All P (push_blk (some num) size files)
unfolding push_blk
push_blk-All P num size files here all = elim (Bool-cases (size == 0)) [
  | inl z ↦ rw (z) all
  | inr nz ↦ rw (nz) (here (λ e. absurd (ground (arith, e, nz))), all)
]

absent-Apart :
    (num : ℕ) (dir : Directory)
    → Canonical dir
    → size_of (blk_path num) dir ≡ none
    → Apart num (blk_files dir)
unfolding blk_files lookup
absent-Apart num [] named e = tt
absent-Apart num ((name, size) ∷ dir) (named, others) e =
    elim (bytes_discrete name (blk_path num)) [
      | yes p ↦ absurd (
          ground (
            arith,
            sym e
                ∙ if_pos (bytes_discrete name (blk_path num)) p (some size)
                    (size_of (blk_path num) dir),
          ))
      | no p ↦
          let later = absent-Apart num dir others (
            sym (
              if_neg (bytes_discrete name (blk_path num)) p (some size)
                (size_of (blk_path num) dir))
            ∙ e) in
          elim (Option-cases (blk_number name)) [
            | inl plain ↦ rw (plain, push_blk) later
            | inr (i, is_blk) ↦ rw (is_blk) (
                push_blk-All (λ f. f.0 ≢ num) i size (blk_files dir)
                  (λ full. λ h. p ((named i is_blk).1 ∙ ap blk_path h)) later)
          ]
    ]

pub blk_files-Unrepeated :
    (dir : Directory) → Canonical dir → Distinct bytes_discrete dir → Unrepeated (blk_files dir)
unfolding blk_files push_blk
blk_files-Unrepeated [] named d = tt
blk_files-Unrepeated ((name, size) ∷ dir) (named, others) (absent, d) =
    let later = blk_files-Unrepeated dir others d in
    elim (Option-cases (blk_number name)) [
      | inl plain ↦ rw (plain) later
      | inr (i, is_blk) ↦ elim (Bool-cases (size == 0)) [
        | inl z ↦ rw (is_blk) (rw (z) later)
        | inr nz ↦
            let gone : size_of (blk_path i) dir ≡ none =
              ap (λ n. size_of n dir) (sym (named i is_blk).1) ∙ absent in
            rw (is_blk) (rw (nz) (absent-Apart i dir others gone, later))
      ]
    ]

-- An entry before a directory that has none of its name changes no listed size.
Listed-cons :
    (name : Bytes) (size : ℕ) (dir : Directory) (files : List (ℕ × ℕ))
    → size_of name dir ≡ none
    → Listed dir files
    → Listed ((name, size) ∷ dir) files
unfolding lookup
Listed-cons name size dir [] absent l = tt
Listed-cons name size dir (f ∷ files) absent ((fits, e, full), l) =
    ((fits, ground (arith, absent, e), full), Listed-cons name size dir files absent l)

pub blk_files-Listed :
    (dir : Directory) → Canonical dir → Distinct bytes_discrete dir → Listed dir (blk_files dir)
unfolding blk_files
blk_files-Listed [] named d = tt
blk_files-Listed ((name, size) ∷ dir) (named, others) (absent, d) =
    let later = Listed-cons name size dir (blk_files dir) absent (blk_files-Listed dir others d) in
    elim (Option-cases (blk_number name)) [
      | inl plain ↦ rw (plain, push_blk) later
      | inr (i, is_blk) ↦
          let (fits, same) = named i is_blk in
          let found : size_of (blk_path i) ((name, size) ∷ dir) ≡ some size =
            (unfold lookup in
              if_pos (bytes_discrete name (blk_path i)) same (some size)
                (size_of (blk_path i) dir)) in
          rw (is_blk) (
            push_blk-All (λ f. IsBlockFile ((name, size) ∷ dir) f.0 f.1) i size (blk_files dir)
              (λ full. (fits, found, full)) later)
    ]

In-push_blk :
    (num size : ℕ) (files : List (ℕ × ℕ))
    → size ≢ 0
    → In (num, size) (push_blk (some num) size files)
unfolding push_blk
In-push_blk num size files full = elim (Bool-cases (size == 0)) [
  | inl z ↦ absurd (full ((==_iff size 0).0 z))
  | inr nz ↦ rw (nz) (inl refl)
]

In-push_blk_rest :
    (o : Option ℕ) (size : ℕ) (f : ℕ × ℕ) (files : List (ℕ × ℕ))
    → In f files
    → In f (push_blk o size files)
unfolding push_blk
In-push_blk_rest none size f files i = i
In-push_blk_rest (some num) size f files i = elim (Bool-cases (size == 0)) [
  | inl z ↦ rw (z) i
  | inr nz ↦ rw (nz) (inr i)
]

-- Every block file is listed.
pub IsBlockFile-In :
    (dir : Directory) (num size : ℕ) → IsBlockFile dir num size → In (num, size) (blk_files dir)
unfolding blk_files lookup
IsBlockFile-In [] num size (fits, e, full) = absurd (ground (arith, e))
IsBlockFile-In ((name, s) ∷ dir) num size (fits, e, full) =
    elim (bytes_discrete name (blk_path num)) [
      | yes p ↦
          let same : some s ≡ some size =
            sym
              (if_pos (bytes_discrete name (blk_path num)) p (some s) (size_of (blk_path num) dir))
            ∙ e in
          let here : s ≡ size = ground (arith, same) in
          rw (p, blk_number-blk_path num fits, here) (In-push_blk num size (blk_files dir) full)
      | no p ↦
          let later =
            sym
              (if_neg (bytes_discrete name (blk_path num)) p (some s) (size_of (blk_path num) dir))
            ∙ e in
          In-push_blk_rest (blk_number name) s (num, size) (blk_files dir)
            (IsBlockFile-In dir num size (fits, later, full))
    ]
