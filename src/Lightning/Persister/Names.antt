-- ===== src/Lightning/Persister/Names.antt =====
-- The keys that `make_key` of crates/wolfe-lightning/src/persister.rs makes of names without slashes.
use bitcoin_wolfe.Prelude.{◌+◌, ◌≡◌, ◌≢◌, refl, sym, ap, ◌∙◌, [], ◌∷◌, ◌++◌, All, arith}
use mathlib.Core.List.{append_assoc}
use bitcoin_wolfe.Bytes.{Bytes}
use bitcoin_wolfe.Lightning.Persister.{slash, make_key, make_prefix, range_end}

-- No slash: so are the names that LDK allows.
abbrev pub IsPlain : Bytes → Type 0
IsPlain name = All (λ c. c ≢ 47) name

-- Plain texts up to the first slash.
pub plain-injective :
    (a b x y : Bytes) → IsPlain a → IsPlain b → a ++ slash ∷ x ≡ b ++ slash ∷ y → (a ≡ b) × (x ≡ y)
plain-injective [] [] x y pa pb e = (refl, ground (arith, e))
plain-injective [] (d ∷ b) x y pa (nd, pb) e =
    let same : 47 ≡ d = ground (arith, e) in absurd (nd (sym same))
plain-injective (c ∷ a) [] x y (nc, pa) pb e =
    let same : c ≡ 47 = ground (arith, e) in absurd (nc same)
plain-injective (c ∷ a) (d ∷ b) x y (nc, pa) (nd, pb) e =
    let head : c ≡ d = ground (arith, e) in
    let tail : a ++ slash ∷ x ≡ b ++ slash ∷ y = ground (arith, e) in
    let (same, rest) = plain-injective a b x y pa pb tail in (cc (head, same), rest)

-- A plain text is not one with a slash.
pub plain_slash : (a x k : Bytes) → IsPlain k → a ++ slash ∷ x ≢ k
plain_slash [] x [] pk e = ground (arith, e)
plain_slash [] x (c ∷ k) (nc, pk) e = let same : 47 ≡ c = ground (arith, e) in nc (sym same)
plain_slash (c ∷ a) x [] pk e = ground (arith, e)
plain_slash (c ∷ a) x (d ∷ k) (nd, pk) e = plain_slash a x k pk (ground (arith, e))

-- Plain names have keys of their own.
pub make_key-injective :
    (p s k p' s' k' : Bytes)
    → IsPlain p
    → IsPlain s
    → IsPlain k
    → IsPlain p'
    → IsPlain s'
    → IsPlain k'
    → make_key p s k ≡ make_key p' s' k'
    → (p ≡ p') × (s ≡ s') × (k ≡ k')
unfolding make_key
make_key-injective p [] k p' [] k' pp ps pk pp' ps' pk' e =
    let (a, b) = plain-injective p p' k k' pp pp' e in (a, refl, b)
make_key-injective p [] k p' (c ∷ s') k' pp ps pk pp' ps' pk' e =
    let (a, b) = plain-injective p p' k ((c ∷ s') ++ slash ∷ k') pp pp' e in
    absurd (plain_slash (c ∷ s') k' k pk (sym b))
make_key-injective p (c ∷ s) k p' [] k' pp ps pk pp' ps' pk' e =
    let (a, b) = plain-injective p p' ((c ∷ s) ++ slash ∷ k) k' pp pp' e in
    absurd (plain_slash (c ∷ s) k k' pk' b)
make_key-injective p (c ∷ s) k p' (d ∷ s') k' pp ps pk pp' ps' pk' e =
    let (a, b) = plain-injective p p' ((c ∷ s) ++ slash ∷ k) ((d ∷ s') ++ slash ∷ k') pp pp' e in
    let (f, g) = plain-injective (c ∷ s) (d ∷ s') k k' ps ps' b in (a, f, g)

-- The prefix of the names of a namespace.
pub make_key-make_prefix : (p s k : Bytes) → make_key p s k ≡ make_prefix p s ++ k
unfolding make_key make_prefix
make_key-make_prefix p [] k = sym (append_assoc p (slash ∷ []) k)
make_key-make_prefix p (c ∷ s) k =
    ap (λ r. p ++ slash ∷ r) (sym (append_assoc (c ∷ s) (slash ∷ []) k))
    ∙ sym (append_assoc p (slash ∷ ((c ∷ s) ++ slash ∷ [])) k)

-- A prefix ends with a slash.
pub make_prefix-split : (p s : Bytes) → (front : Bytes) × (make_prefix p s ≡ front ++ slash ∷ [])
unfolding make_prefix
make_prefix-split p [] = (p, refl)
make_prefix-split p (c ∷ s) =
    (p ++ slash ∷ (c ∷ s), sym (append_assoc p (slash ∷ (c ∷ s)) (slash ∷ [])))

pub range_end-append : (front : Bytes) → range_end (front ++ slash ∷ []) ≡ front ++ (slash + 1) ∷ []
unfolding range_end
range_end-append [] = refl
range_end-append (c ∷ []) = refl
range_end-append (c ∷ d ∷ front) = ap (λ r. c ∷ r) (range_end-append (d ∷ front))
