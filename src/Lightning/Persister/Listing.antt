-- ===== src/Lightning/Persister/Listing.antt =====
-- The keys that `list` of crates/wolfe-lightning/src/persister.rs finds.
use mathlib.Core.List.{append_assoc}
use bitcoin_wolfe.Prelude.{
  ◌+◌, ◌≡◌, ◌≢◌, ◌↔◌, inl, inr, refl, sym, ap, ◌∙◌, true, false, none, some, List, [], ◌∷◌, ◌++◌,
  In, arith, if_pos, if_neg, Option-cases,
}
use bitcoin_wolfe.Bytes.{Bytes, bytes_discrete}
use bitcoin_wolfe.Bytes.Prefix.{
  strip_prefix, strip_prefix-append, strip_prefix-some, is_less, is_less-prefix, is_less-bumped,
}
use bitcoin_wolfe.Map.Assoc.{lookup, Distinct}
use bitcoin_wolfe.Map.{MapOps}
use bitcoin_wolfe.Lightning.Persister.{slash, make_prefix, range_end, short_keys, RangeOps}
use bitcoin_wolfe.Lightning.Persister.Names.{make_prefix-split, range_end-append}

-- No element twice.
abbrev pub Once : List Bytes → Type 0
Once [] = Unit
Once (k ∷ ks) = (¬ In k ks) × Once ks

short_keys-In :
    (prefix : Bytes) (es : List (Bytes × Bytes)) (k : Bytes)
    → In k (short_keys prefix es) ↔ (lookup bytes_discrete (prefix ++ k) es ≢ none)
unfolding short_keys lookup
short_keys-In prefix [] k = (λ i. absurd i, λ h. absurd (h refl))
short_keys-In prefix ((full, value) ∷ rest) k =
    let later = short_keys-In prefix rest k in
    elim (bytes_discrete full (prefix ++ k)) [
      | yes e ↦
          let found : strip_prefix prefix full ≡ some k =
            ap (strip_prefix prefix) e ∙ strip_prefix-append prefix k in
          (
            λ i h. absurd (
                ground (
                  arith,
                  sym h
                      ∙ if_pos (bytes_discrete full (prefix ++ k)) e (some value)
                          (lookup bytes_discrete (prefix ++ k) rest),
                )),
            λ h. rw (found) (inl refl),
          )
      | no e ↦
          let same =
            if_neg (bytes_discrete full (prefix ++ k)) e (some value)
              (lookup bytes_discrete (prefix ++ k) rest) in
          elim (Option-cases (strip_prefix prefix full)) [
            | inl none_left ↦ (
              λ i h. later.0 (rw (none_left) at i) (sym same ∙ h),
              λ h. rw (none_left) (later.1 (λ g. h (same ∙ g))),
            )
            | inr (suffix, left) ↦ (
              λ i h. elim (rw (left) at i) [
                | inl e' ↦ e (strip_prefix-some prefix full suffix left ∙ ap (λ r. prefix ++ r) e')
                | inr i' ↦ later.0 i' (sym same ∙ h)
              ],
              λ h. rw (left) (inr (later.1 (λ g. h (same ∙ g)))),
            )
          ]
    ]

short_keys-Once :
    (prefix : Bytes) (es : List (Bytes × Bytes))
    → Distinct bytes_discrete es
    → Once (short_keys prefix es)
unfolding short_keys
short_keys-Once prefix [] d = tt
short_keys-Once prefix ((full, value) ∷ rest) (absent, d) =
    let later = short_keys-Once prefix rest d in
    elim (Option-cases (strip_prefix prefix full)) [
      | inl none_left ↦ rw (none_left) later
      | inr (suffix, left) ↦
          let e = strip_prefix-some prefix full suffix left in
          let gone : lookup bytes_discrete (prefix ++ suffix) rest ≡ none =
            ap (λ k. lookup bytes_discrete k rest) (sym e) ∙ absent in
          rw (left) ((λ i. (short_keys-In prefix rest suffix).0 i gone), later)
    ]

is_less-slash :
    (front k : Bytes) → is_less ((front ++ slash ∷ []) ++ k) (front ++ (slash + 1) ∷ []) ≡ true
is_less-slash front k = rw (append_assoc front (slash ∷ []) k) (is_less-bumped front slash k)

module _ (M : MapOps bytes_discrete Bytes) (R : RangeOps M) where
  -- The range covers every key with the prefix.
  range-prefix :
      (m : M.Map) (p s k : Bytes)
      → lookup bytes_discrete
          (make_prefix p s ++ k)
          (R.range m (make_prefix p s) (range_end (make_prefix p s)))
        ≡ M.get m (make_prefix p s ++ k)
  range-prefix m p s k =
      let prefix = make_prefix p s in
      let (front, split) = make_prefix-split p s in
      let low : is_less (prefix ++ k) prefix ≡ false = is_less-prefix prefix k in
      let high : is_less (prefix ++ k) (range_end prefix) ≡ true =
        rw (split, range_end-append front) (is_less-slash front k) in
      R.lookup-range m prefix (range_end prefix) (prefix ++ k) ∙ (rw (low, high) refl)

  -- The keys that are listed are those that are stored behind the prefix.
  pub listed-In :
      (m : M.Map) (p s k : Bytes)
      → In k
          (short_keys (make_prefix p s) (R.range m (make_prefix p s) (range_end (make_prefix p s))))
        ↔ (M.get m (make_prefix p s ++ k) ≢ none)
  listed-In m p s k =
      let same = range-prefix m p s k in
      let (to, from) =
        short_keys-In (make_prefix p s) (R.range m (make_prefix p s) (range_end (make_prefix p s)))
          k in
      (λ i h. to i (same ∙ h), λ h. from (λ g. h (sym same ∙ g)))

  pub listed-Once :
      (m : M.Map) (p s : Bytes)
      → Once
          (short_keys (make_prefix p s) (R.range m (make_prefix p s) (range_end (make_prefix p s))))
  listed-Once m p s =
      short_keys-Once (make_prefix p s) _
        (R.range-Distinct m (make_prefix p s) (range_end (make_prefix p s)))
