-- ===== src/Bytes/Prefix.antt =====
-- Prefixes of byte strings, `str::strip_prefix`, and their lexicographic order, `str::cmp`.
use bitcoin_wolfe.Prelude.{
  ℕ, ◌+◌, ◌≡◌, refl, inl, inr, Bool, true, false, ◌&&◌, ◌||◌, Option, none, some, [], ◌∷◌, ◌++◌,
  ◌==◌, ==_iff, ltb, if◌then◌else◌, arith, Bool-cases,
}
use bitcoin_wolfe.Bytes.{Bytes}

-- `text.strip_prefix(prefix)`.
unfoldable pub strip_prefix : Bytes → Bytes → Option Bytes
strip_prefix [] text = some text
strip_prefix (p ∷ prefix) [] = none
strip_prefix (p ∷ prefix) (c ∷ text) =
    let rest = strip_prefix prefix text in if p == c then rest else none

pub strip_prefix-append : (prefix text : Bytes) → strip_prefix prefix (prefix ++ text) ≡ some text
unfolding strip_prefix
strip_prefix-append [] text = refl
strip_prefix-append (p ∷ prefix) text =
    rw ((==_iff p p).1 refl, strip_prefix) (strip_prefix-append prefix text)

pub strip_prefix-some :
    (prefix text rest : Bytes) → strip_prefix prefix text ≡ some rest → text ≡ prefix ++ rest
unfolding strip_prefix
strip_prefix-some [] text rest e = ground (arith, e)
strip_prefix-some (p ∷ prefix) [] rest e = absurd (ground (arith, e))
strip_prefix-some (p ∷ prefix) (c ∷ text) rest e = elim (Bool-cases (p == c)) [
  | inl same ↦
      let later : strip_prefix prefix text ≡ some rest = rw (same) at e in
      let first : p ≡ c = (==_iff p c).0 same in
      cc (first, strip_prefix-some prefix text rest later)
  | inr differs ↦ let gone : none ≡ some rest = rw (differs) at e in absurd (ground (arith, gone))
]

-- The order of byte strings: the first difference decides, and a prefix is less.
unfoldable pub is_less : Bytes → Bytes → Bool
is_less [] [] = false
is_less [] (b ∷ bs) = true
is_less (a ∷ cs) [] = false
is_less (a ∷ cs) (b ∷ bs) = let rest = is_less cs bs in ltb a b || ((a == b) && rest)

pub is_less-prefix : (prefix text : Bytes) → is_less (prefix ++ text) prefix ≡ false
unfolding is_less
is_less-prefix [] [] = refl
is_less-prefix [] (c ∷ text) = refl
is_less-prefix (p ∷ prefix) text = ground (arith, is_less-prefix prefix text)

pub is_less-bumped :
    (front : Bytes) (c : ℕ) (text : Bytes)
    → is_less (front ++ c ∷ text) (front ++ (c + 1) ∷ []) ≡ true
unfolding is_less
is_less-bumped [] c text = ground arith
is_less-bumped (p ∷ front) c text = ground (arith, is_less-bumped front c text)
