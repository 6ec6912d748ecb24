-- ===== src/Lightning/Persister/Refines.antt =====
-- The store of crates/wolfe-lightning/src/persister.rs keeps its promise to the Lightning node.
use bitcoin_wolfe.Prelude.{
  ◌≡◌, ◌≢◌, ◌↔◌, inl, inr, refl, sym, ap, ◌∙◌, none, some, List, [], ◌∷◌, ◌++◌, All, arith, if_pos,
  if_neg,
}
use bitcoin_wolfe.Bytes.{Bytes, bytes_discrete}
use bitcoin_wolfe.Map.{MapOps, get-insert_self, get-insert_ne, get-remove_self, get-remove_ne}
use bitcoin_wolfe.Lightning.Persister.{
  slash, make_key, make_prefix, range_end, short_keys, RangeOps, Call, read, write, remove, list,
  by_entry, call, call_all,
}
use bitcoin_wolfe.Lightning.Persister.Names.{
  IsPlain, plain-injective, plain_slash, make_key-injective, make_key-make_prefix,
}
use bitcoin_wolfe.Lightning.Persister.Listing.{listed-In, listed-Once}
use mathlib.Core.Path.{subst}
use bitcoin_wolfe.Lightning.Persister.Spec.{
  Name, name_discrete, Spec, apply, Stored, Promised, Implements, IsPlainCall, IsPlainName,
}

abbrev key_of : Name → Bytes
key_of n = make_key n.0 n.1 n.2

key_of-injective : (n n' : Name) → IsPlainName n → IsPlainName n' → key_of n ≡ key_of n' → n ≡ n'
key_of-injective (p, s, k) (p', s', k') (pp, ps, pk) (pp', ps', pk') e =
    let (a, b, c) = make_key-injective p s k p' s' k' pp ps pk pp' ps' pk' e in cc (a, b, c)

-- A key with the prefix of a namespace, that is the key of a name of the map.
Stored-key_of :
    (spec : Spec) (p s k : Bytes) (n : Name)
    → IsPlain p
    → IsPlain s
    → IsPlainName n
    → make_key p s k ≡ key_of n
    → spec n ≢ none
    → Stored spec p s k
unfolding make_key
Stored-key_of spec p [] k (p', [], k') pp ps (pp', ps', pk') e h =
    let (a, b) = plain-injective p p' k k' pp pp' e in inl (λ g. h (ap spec (cc (a, b)) ∙ g))
Stored-key_of spec p [] k (p', c ∷ s', k') pp ps (pp', ps', pk') e h =
    let (a, b) = plain-injective p p' k ((c ∷ s') ++ slash ∷ k') pp pp' e in
    inr (c ∷ s', k', (λ g. ground (arith, g)), b, λ g. h (ap spec (cc a) ∙ g))
Stored-key_of spec p (c ∷ s) k (p', [], k') pp ps (pp', ps', pk') e h =
    let (a, b) = plain-injective p p' ((c ∷ s) ++ slash ∷ k) k' pp pp' e in
    absurd (plain_slash (c ∷ s) k k' pk' b)
Stored-key_of spec p (c ∷ s) k (p', d ∷ s', k') pp ps (pp', ps', pk') e h =
    let (a, b) = plain-injective p p' ((c ∷ s) ++ slash ∷ k) ((d ∷ s') ++ slash ∷ k') pp pp' e in
    let (f, g) = plain-injective (c ∷ s) (d ∷ s') k k' ps ps' b in
    λ gone. h (ap spec (cc (a, f, g)) ∙ gone)

-- And the other way round.
key_of-Stored :
    (spec : Spec) (p s k : Bytes)
    → Stored spec p s k
    → (n : Name) × (make_key p s k ≡ key_of n) × (spec n ≢ none)
unfolding make_key
key_of-Stored spec p [] k (inl h) = ((p, [], k), refl, h)
key_of-Stored spec p [] k (inr ([], k', ne, e, h)) = absurd (ne refl)
key_of-Stored spec p [] k (inr (c ∷ s, k', ne, e, h)) =
    ((p, c ∷ s, k'), ap (λ r. p ++ slash ∷ r) e, h)
key_of-Stored spec p (c ∷ s) k h = ((p, c ∷ s, k), refl, h)

module _ (M : MapOps bytes_discrete Bytes) (R : RangeOps M) where
  -- The table holds the map under the keys of the names, and nothing else.
  record Represents (m : M.Map) (spec : Spec) : Type 0 where
    same : (n : Name) → IsPlainName n → M.get m (key_of n) ≡ spec n
    plain : (n : Name) → spec n ≢ none → IsPlainName n
    named : (key : Bytes) → M.get m key ≢ none → (n : Name) × IsPlainName n × (key ≡ key_of n)

  empty-Represents : Represents M.empty (λ n. none)
  empty-Represents = record {
    same = λ n h. M.get-empty (key_of n);
    plain = λ n h. absurd (h refl);
    named = λ key h. absurd (h (M.get-empty key));
  }

  insert-Represents :
      (m : M.Map) (spec : Spec) (n : Name) (buf : Bytes)
      → IsPlainName n
      → Represents m spec
      → Represents (M.insert m (key_of n) buf) (apply spec (write n.0 n.1 n.2 buf))
  unfolding apply
  insert-Represents m spec n buf pn r = record {
    same = λ i pi. elim (name_discrete n i) [
      | yes e ↦
          ap (M.get (M.insert m (key_of n) buf)) (ap key_of (sym e))
          ∙ get-insert_self M m (key_of n) buf
          ∙ sym (if_pos (name_discrete n i) e (some buf) (spec i))
      | no e ↦
          get-insert_ne M m (key_of n) (key_of i) buf (λ h. e (key_of-injective n i pn pi h))
          ∙ r.same i pi
          ∙ sym (if_neg (name_discrete n i) e (some buf) (spec i))
    ];
    plain = λ i h. elim (name_discrete n i) [
      | yes e ↦ subst IsPlainName e pn
      | no e ↦ r.plain i (λ g. h (if_neg (name_discrete n i) e (some buf) (spec i) ∙ g))
    ];
    named = λ key h. elim (bytes_discrete (key_of n) key) [
      | yes e ↦ (n, pn, sym e)
      | no e ↦ r.named key (λ g. h (get-insert_ne M m (key_of n) key buf e ∙ g))
    ];
  }

  remove-Represents :
      (m : M.Map) (spec : Spec) (n : Name)
      → IsPlainName n
      → Represents m spec
      → Represents (M.remove m (key_of n)) (apply spec (remove n.0 n.1 n.2))
  unfolding apply
  remove-Represents m spec n pn r = record {
    same = λ i pi. elim (name_discrete n i) [
      | yes e ↦
          ap (M.get (M.remove m (key_of n))) (ap key_of (sym e))
          ∙ get-remove_self M m (key_of n)
          ∙ sym (if_pos (name_discrete n i) e none (spec i))
      | no e ↦
          get-remove_ne M m (key_of n) (key_of i) (λ h. e (key_of-injective n i pn pi h))
          ∙ r.same i pi
          ∙ sym (if_neg (name_discrete n i) e none (spec i))
    ];
    plain = λ i h. elim (name_discrete n i) [
      | yes e ↦ subst IsPlainName e pn
      | no e ↦ r.plain i (λ g. h (if_neg (name_discrete n i) e none (spec i) ∙ g))
    ];
    named = λ key h. elim (bytes_discrete (key_of n) key) [
      | yes e ↦
          absurd (h (ap (M.get (M.remove m (key_of n))) (sym e) ∙ get-remove_self M m (key_of n)))
      | no e ↦ r.named key (λ g. h (get-remove_ne M m (key_of n) key e ∙ g))
    ];
  }

  -- What is behind the prefix of a namespace is what the map stores in it.
  behind-Stored :
      (m : M.Map) (spec : Spec) (p s k : Bytes)
      → IsPlain p
      → IsPlain s
      → Represents m spec
      → (M.get m (make_prefix p s ++ k) ≢ none) ↔ Stored spec p s k
  behind-Stored m spec p s k pp ps r =
      let same = make_key-make_prefix p s k in
      (
        λ h.
            let (n, pn, e) = r.named (make_prefix p s ++ k) h in
            Stored-key_of spec p s k n pp ps pn (same ∙ e)
              (λ gone. h (ap (M.get m) e ∙ r.same n pn ∙ gone)),
        λ h gone.
            let (n, e, there) = key_of-Stored spec p s k h in
            there (sym (r.same n (r.plain n there)) ∙ ap (M.get m) (sym e ∙ same) ∙ gone),
      )

  call-Represents :
      (m : M.Map) (spec : Spec) (c : Call)
      → IsPlainCall c
      → Represents m spec
      → Represents (call M R m c).0 (apply spec c) × Promised spec c (call M R m c).1
  unfolding call apply
  call-Represents m spec (read p s k) plain r = (r, ap by_entry (r.same (p, s, k) plain))
  call-Represents m spec (write p s k buf) plain r =
      (insert-Represents m spec (p, s, k) buf plain r, refl)
  call-Represents m spec (remove p s k) plain r = (remove-Represents m spec (p, s, k) plain r, refl)
  call-Represents m spec (list p s) (pp, ps) r =
      let found = listed-In M R m p s in
      let stored = λ (k : Bytes). behind-Stored m spec p s k pp ps r in
      (
        r,
        (
          short_keys (make_prefix p s) (R.range m (make_prefix p s) (range_end (make_prefix p s))),
          refl,
          listed-Once M R m p s,
          λ k. (λ i. (stored k).0 ((found k).0 i), λ h. (found k).1 ((stored k).1 h)),
        ),
      )

  call_all-from :
      (m : M.Map) (spec : Spec) (calls : List Call)
      → All IsPlainCall calls
      → Represents m spec
      → Implements spec calls (call_all M R m calls)
  unfolding call_all
  call_all-from m spec [] plain r = tt
  call_all-from m spec (c ∷ calls) (pc, plain) r =
      let (r', reply) = call-Represents m spec c pc r in
      (reply, call_all-from (call M R m c).0 (apply spec c) calls plain r')

  -- The store implements a map from names: on an empty table the replies to any calls, whose names have
  -- no slash, are those of the map. A read gives what was written last under the name, or that nothing
  -- is there; a list gives each key of the namespace once, and where the secondary namespace is empty
  -- also the names of all the secondary namespaces.
  pub call_all-Implements :
      (calls : List Call)
      → All IsPlainCall calls
      → Implements (λ n. none) calls (call_all M R M.empty calls)
  call_all-Implements calls plain = call_all-from M.empty (λ n. none) calls plain empty-Represents
