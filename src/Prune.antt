-- ===== src/Prune.antt =====
-- `prune_block_files` of crates/wolfe-node/src/main.rs. A directory is the list of its entries, in the
-- order of `read_dir`, with their sizes; a name is its bytes. The errors of the file system are left
-- out, and so is the log.
pub mod Names
pub mod Files
pub mod Numbers
pub mod Order
pub mod Shortest
use bitcoin_wolfe.Prelude.{
  ℕ, zero, suc, ◌+◌, ◌-◌, ◌*◌, ◌/◌, ◌%◌, ◌^◌, Bool, ◌&&◌, Option, none, some, List, [], ◌∷◌, ◌++◌,
  ite, leb, ltb, ◌==◌, length, take, drop, if◌then◌else◌,
}
use bitcoin_wolfe.Bytes.{Bytes, bytes_discrete, str}
use bitcoin_wolfe.Sort.{sort_by}
use bitcoin_wolfe.Map.Assoc.{lookup}

-- A further decimal digit of a `u32`.
unfoldable pub push_digit : ℕ → Option ℕ → Option ℕ
push_digit c none = none
push_digit c (some n) =
    if leb 48 c && (leb c 57 && ltb (n * 10 + (c - 48)) (2 ^ 32))
    then some (n * 10 + (c - 48))
    else none

unfoldable pub parse_digits : Option ℕ → Bytes → Option ℕ
unfolding push_digit
parse_digits n [] = n
parse_digits n (c ∷ text) = parse_digits (push_digit c n) text

unfoldable pub parse_signed : Bytes → Option ℕ
unfolding parse_digits
parse_signed [] = none
parse_signed (c ∷ text) = parse_digits (some 0) (c ∷ text)

-- `parse::<u32>()`, which takes a plus sign before the digits.
unfoldable pub parse_u32 : Bytes → Option ℕ
unfolding parse_digits parse_signed
parse_u32 [] = none
parse_u32 (c ∷ text) = if c == 43 then parse_signed text else parse_digits (some 0) (c ∷ text)

-- The number in the name of a block file: between `blk` and `.dat`.
unfoldable pub blk_number : Bytes → Option ℕ
unfolding parse_u32
blk_number name =
    ite (bytes_discrete (take 3 name) (str "blk"))
      (ite (bytes_discrete (drop (length name - 4) name) (str ".dat"))
        (parse_u32 (take (length name - 4 - 3) (drop 3 name))) none)
      none

-- The last decimal digits of a number.
unfoldable pub digits : ℕ → ℕ → Bytes
digits zero n = []
digits (suc width) n = digits width (n / 10) ++ (48 + n % 10) ∷ []

-- At most `count` zeros in front are left out.
unfoldable pub strip : ℕ → Bytes → Bytes
strip zero text = text
strip (suc count) [] = []
strip (suc count) (c ∷ text) = let rest = strip count text in if c == 48 then rest else c ∷ text

-- `{:05}` for a `u32`, which has at most ten digits.
unfoldable pub padded : ℕ → Bytes
unfolding digits strip
padded num = strip 5 (digits 10 num)

unfoldable pub blk_path : ℕ → Bytes
unfolding padded
blk_path num = str "blk" ++ (padded num ++ str ".dat")

unfoldable pub rev_path : ℕ → Bytes
unfolding padded
rev_path num = str "rev" ++ (padded num ++ str ".dat")

abbrev pub Directory : Type 0
Directory = List (Bytes × ℕ)

-- The size of a file that exists.
abbrev pub size_of : Bytes → Directory → Option ℕ
size_of name dir = lookup bytes_discrete name dir

-- The sum of the sizes of all entries.
unfoldable pub total : Directory → ℕ
total [] = 0
total ((name, size) ∷ dir) = size + total dir

unfoldable pub push_blk : Option ℕ → ℕ → List (ℕ × ℕ) → List (ℕ × ℕ)
push_blk none size files = files
push_blk (some num) size files = if size == 0 then files else (num, size) ∷ files

-- The block files that are not empty.
unfoldable pub blk_files : Directory → List (ℕ × ℕ)
unfolding push_blk blk_number
blk_files [] = []
blk_files ((name, size) ∷ dir) = push_blk (blk_number name) size (blk_files dir)

abbrev pub by_number : ℕ × ℕ → ℕ × ℕ → Bool
by_number a b = leb a.0 b.0

-- `File::create` of a file that exists.
unfoldable pub truncate : Bytes → Directory → Directory
truncate name [] = []
truncate name ((n, size) ∷ dir) = (n, ite (bytes_discrete n name) 0 size) ∷ truncate name dir

-- What is freed, and the directory: of a block file, and of a rev file.
abbrev pub free_blk : ℕ → ℕ → Directory → Option ℕ → ℕ × Directory
free_blk num blk_size dir none = (0, dir)
free_blk num blk_size dir (some size) = (blk_size, truncate (blk_path num) dir)

abbrev pub free_rev : ℕ → Directory → Option ℕ → ℕ × Directory
free_rev num dir none = (0, dir)
free_rev num dir (some rev_size) =
    if rev_size == 0 then (0, dir) else (rev_size, truncate (rev_path num) dir)

-- The two files of a number.
unfoldable pub free_pair : ℕ → ℕ → Directory → ℕ × Directory
unfolding truncate
free_pair num blk_size dir =
    let (a, dir') = free_blk num blk_size dir (size_of (blk_path num) dir) in
    let (b, dir'') = free_rev num dir' (size_of (rev_path num) dir') in (a + b, dir'')

unfoldable pub prune_loop : ℕ → ℕ → Directory → List (ℕ × ℕ) → Directory
unfolding free_pair
prune_loop excess freed dir [] = dir
prune_loop excess freed dir ((num, blk_size) ∷ rest) =
    let (pair_freed, dir') = free_pair num blk_size dir in
    let after = prune_loop excess ((freed + pair_freed) % 2 ^ 64) dir' rest in
    if leb excess freed then dir else after

unfoldable pub prune_block_files : Directory → ℕ → Directory
unfolding total blk_files prune_loop
prune_block_files dir target_bytes =
    let total_bytes = total dir % 2 ^ 64 in
    let files = sort_by by_number (blk_files dir) in
    let prunable = length files - 10 in
    if leb total_bytes target_bytes
    then dir
    else if prunable == 0
    then dir
    else prune_loop (total_bytes - target_bytes) 0 dir (take prunable files)
