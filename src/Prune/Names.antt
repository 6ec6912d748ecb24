-- ===== src/Prune/Names.antt =====
-- The names of block files in `prune_block_files` of crates/wolfe-node/src/main.rs: the number in the
-- name that is written for a number is that number.
use native.Mathlib.Nat.{pow-suc}
use bitcoin_wolfe.Prelude.{
  ℕ, suc, zero, ◌+◌, ◌-◌, ◌*◌, ◌/◌, ◌%◌, ◌^◌, ◌<◌, ◌≤◌, ◌≡◌, ◌≢◌, refl, sym, ap, ◌∙◌, inl, inr,
  Bool-cases, Option, some, [], ◌∷◌, ◌++◌, All, arith, ◌==◌, length, take, drop, length-append,
  take-append, drop-append, if_pos, ==_iff,
}
use bitcoin_wolfe.Bytes.{Bytes, bytes_discrete, str}
use bitcoin_wolfe.Prune.{
  push_digit, parse_digits, parse_u32, blk_number, digits, strip, padded, blk_path, rev_path,
}

pub blk_path≢rev_path : (a b : ℕ) → rev_path a ≢ blk_path b
unfolding blk_path rev_path
blk_path≢rev_path a b e = ground (arith, ap (take 1) e)

push_digit_lem :
    (n d : ℕ) → d < 10 → n * 10 + d < 2 ^ 32 → push_digit (48 + d) (some n) ≡ some (n * 10 + d)
unfolding push_digit
push_digit_lem n d small fits = ground (arith, small, fits)

parse_digits-append :
    (n : Option ℕ) (text : Bytes) (c : ℕ)
    → parse_digits n (text ++ c ∷ []) ≡ push_digit c (parse_digits n text)
unfolding parse_digits
parse_digits-append n [] c = refl
parse_digits-append n (d ∷ text) c = parse_digits-append (push_digit d n) text c

parse_digits-digits :
    (width n : ℕ) → n < 10 ^ width → n < 2 ^ 32 → parse_digits (some 0) (digits width n) ≡ some n
unfolding digits parse_digits
parse_digits-digits zero n small fits = ap some (omega (arith, small))
parse_digits-digits (suc width) n small fits =
    let below : n / 10 < 10 ^ width = omega (arith, pow-suc 10 width, small) in
    parse_digits-append (some 0) (digits width (n / 10)) (48 + n % 10)
    ∙ ap (push_digit (48 + n % 10)) (parse_digits-digits width (n / 10) below (omega (arith, fits)))
    ∙ push_digit_lem (n / 10) (n % 10) (omega arith) (omega (arith, fits))
    ∙ ap some (omega arith)

parse_digits-strip :
    (count : ℕ) (text : Bytes)
    → parse_digits (some 0) (strip count text) ≡ parse_digits (some 0) text
unfolding strip parse_digits
parse_digits-strip zero text = refl
parse_digits-strip (suc count) [] = refl
parse_digits-strip (suc count) (c ∷ text) = elim (Bool-cases (c == 48)) [
  | inl z ↦ rw (z) (
      parse_digits-strip count text
      ∙ ap (λ n. parse_digits n text)
          (sym (
            ap (λ d. push_digit d (some 0)) ((==_iff c 48).0 z)
            ∙ push_digit_lem 0 0 (omega arith) (omega arith))))
  | inr nz ↦ rw (nz) refl
]

-- A text that begins with a digit.
abbrev Numeral : Bytes → Type 0
Numeral [] = ⊥
Numeral (c ∷ text) = 48 ≤ c

abbrev AllDigits : Bytes → Type 0
AllDigits text = All (λ c. 48 ≤ c) text

AllDigits-append : (text : Bytes) (c : ℕ) → AllDigits text → 48 ≤ c → AllDigits (text ++ c ∷ [])
AllDigits-append [] c all here = (here, tt)
AllDigits-append (d ∷ text) c (first, all) here = (first, AllDigits-append text c all here)

digits-AllDigits : (width n : ℕ) → AllDigits (digits width n)
unfolding digits
digits-AllDigits zero n = tt
digits-AllDigits (suc width) n =
    AllDigits-append (digits width (n / 10)) (48 + n % 10) (digits-AllDigits width (n / 10))
      (omega arith)

length-digits : (width n : ℕ) → length (digits width n) ≡ width
unfolding digits
length-digits zero n = refl
length-digits (suc width) n = omega (
  arith,
  length-append (digits width (n / 10)) ((48 + n % 10) ∷ []),
  length-digits width (n / 10),
)

strip-Numeral :
    (count : ℕ) (text : Bytes) → AllDigits text → count < length text → Numeral (strip count text)
unfolding strip
strip-Numeral zero [] all long = absurd (omega (arith, long))
strip-Numeral zero (c ∷ text) (first, all) long = first
strip-Numeral (suc count) [] all long = absurd (omega (arith, long))
strip-Numeral (suc count) (c ∷ text) (first, all) long = elim (Bool-cases (c == 48)) [
  | inl z ↦ rw (z) (strip-Numeral count text all (omega (arith, long)))
  | inr nz ↦ rw (nz) first
]

parse_u32-Numeral : (text : Bytes) → Numeral text → parse_u32 text ≡ parse_digits (some 0) text
unfolding parse_u32
parse_u32-Numeral [] n = absurd n
parse_u32-Numeral (c ∷ text) n = ground (arith, n)

parse_u32-padded : (num : ℕ) → num < 2 ^ 32 → parse_u32 (padded num) ≡ some num
unfolding padded
parse_u32-padded num fits =
    parse_u32-Numeral (strip 5 (digits 10 num)) (
      strip-Numeral 5 (digits 10 num) (digits-AllDigits 10 num)
        (omega (arith, length-digits 10 num)))
    ∙ parse_digits-strip 5 (digits 10 num)
    ∙ parse_digits-digits 10 num (omega (arith, fits)) fits

-- The number of a block file, below 2^32, is read back from the name that is written for it.
pub blk_number-blk_path : (num : ℕ) → num < 2 ^ 32 → blk_number (blk_path num) ≡ some num
unfolding blk_number blk_path
blk_number-blk_path num fits =
    let front = str "blk" ++ padded num in
    let dat = str ".dat" in
    let size : length (front ++ dat) ≡ length front + 4 = length-append front dat in
    let three : length (padded num) ≡ length (front ++ dat) - 4 - 3 = omega (arith, size) in
    let at_dat : length (front ++ dat) - 4 ≡ length front = omega (arith, size) in
    let end : drop (length (front ++ dat) - 4) (front ++ dat) ≡ dat =
      ap (λ n. drop n (front ++ dat)) at_dat ∙ drop-append front dat in
    let middle : take (length (front ++ dat) - 4 - 3) (padded num ++ dat) ≡ padded num =
      ap (λ n. take n (padded num ++ dat)) (sym three) ∙ take-append (padded num) dat in
    if_pos (bytes_discrete (str "blk") (str "blk")) refl _ _
    ∙ if_pos (bytes_discrete (drop (length (front ++ dat) - 4) (front ++ dat)) dat) end _ _
    ∙ ap parse_u32 middle
    ∙ parse_u32-padded num fits
