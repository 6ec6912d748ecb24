-- ===== src/Nostr/Tags.antt =====
-- The values that the loop over the tags of crates/wolfe-nostr/src/nip98.rs finds.
use mathlib.Core.Option.{some-injective}
use bitcoin_wolfe.Prelude.{
  ◌≡◌, ◌≢◌, ◌↔◌, ◌⊎◌, inl, inr, refl, sym, ap, ◌∙◌, Option, none, some, List, [], ◌∷◌, ◌++◌, ite,
  if_pos, if_neg, All, arith,
}
use bitcoin_wolfe.Bytes.{Bytes, bytes_discrete, str}
use bitcoin_wolfe.Nostr.{tag_loop}

-- A tag of this name with a value.
abbrev pub Named : Bytes → List Bytes → Type 0
Named name (n ∷ value ∷ more) = n ≡ name
Named name _ = ⊥

-- The last tag of the name has the value.
pub record LastTag (name : Bytes) (tags : List (List Bytes)) (value : Bytes) : Type 0 where
  pub before : List (List Bytes)
  pub more : List Bytes
  pub after : List (List Bytes)
  pub split : tags ≡ before ++ (name ∷ value ∷ more) ∷ after
  pub last : All (λ t. ¬ Named name t) after

-- The loop for one name.
last_value : Bytes → Option Bytes → List (List Bytes) → Option Bytes
last_value name found [] = found
last_value name found ((n ∷ value ∷ more) ∷ rest) =
    last_value name (ite (bytes_discrete n name) (some value) found) rest
last_value name found (_ ∷ rest) = last_value name found rest

abbrev LastOr : Bytes → Option Bytes → List (List Bytes) → Bytes → Type 0
LastOr name found tags x = LastTag name tags x ⊎ (All (λ t. ¬ Named name t) tags × (found ≡ some x))

later :
    {name : Bytes} {tags : List (List Bytes)} {x : Bytes} (t : List Bytes)
    → LastTag name tags x
    → LastTag name (t ∷ tags) x
later t l = record {
  before = t ∷ l.before;
  more = l.more;
  after = l.after;
  split = ap (λ r. t ∷ r) l.split;
  last = l.last;
}

-- What is found with a tag that is skipped in front.
skip :
    {name : Bytes} {found : Option Bytes} {tags : List (List Bytes)} {x : Bytes} (t : List Bytes)
    → ¬ Named name t
    → LastOr name found tags x
    → LastOr name found (t ∷ tags) x
skip t other (inl l) = inl (later t l)
skip t other (inr (gone, f)) = inr ((other, gone), f)

last_value_sound :
    (name : Bytes) (found : Option Bytes) (tags : List (List Bytes)) (x : Bytes)
    → last_value name found tags ≡ some x
    → LastOr name found tags x
unfolding last_value
last_value_sound name found [] x h = inr (tt, h)
last_value_sound name found ([] ∷ rest) x h =
    skip [] (λ n. n) (last_value_sound name found rest x h)
last_value_sound name found ((n ∷ []) ∷ rest) x h =
    skip (n ∷ []) (λ e. e) (last_value_sound name found rest x h)
last_value_sound name found ((n ∷ value ∷ more) ∷ rest) x h = elim (bytes_discrete n name) [
  | yes e ↦
      let h' = rw (if_pos (bytes_discrete n name) e) at h in
      elim (last_value_sound name (some value) rest x h') [
        | inl l ↦ inl (later (n ∷ value ∷ more) l)
        | inr (gone, same) ↦ inl (record {
          before = [];
          more = more;
          after = rest;
          split =
              ap (λ m. (m ∷ value ∷ more) ∷ rest) e
              ∙ ap (λ v. (name ∷ v ∷ more) ∷ rest) (some-injective _ _ same);
          last = gone;
        })
      ]
  | no e ↦
      skip (n ∷ value ∷ more) e
        (last_value_sound name found rest x (rw (if_neg (bytes_discrete n name) e) at h))
]

last_value-without :
    (name : Bytes) (found : Option Bytes) (tags : List (List Bytes))
    → All (λ t. ¬ Named name t) tags
    → last_value name found tags ≡ found
unfolding last_value
last_value-without name found [] gone = refl
last_value-without name found ([] ∷ rest) (other, gone) = last_value-without name found rest gone
last_value-without name found ((n ∷ []) ∷ rest) (other, gone) =
    last_value-without name found rest gone
last_value-without name found ((n ∷ value ∷ more) ∷ rest) (other, gone) =
    rw (if_neg (bytes_discrete n name) other) (last_value-without name found rest gone)

last_value-split :
    (name : Bytes) (found : Option Bytes) (before after : List (List Bytes)) (x : Bytes)
    (more : List Bytes)
    → All (λ t. ¬ Named name t) after
    → last_value name found (before ++ (name ∷ x ∷ more) ∷ after) ≡ some x
unfolding last_value
last_value-split name found [] after x more gone =
    ap (λ f. last_value name f after) (if_pos (bytes_discrete name name) refl (some x) found)
    ∙ last_value-without name (some x) after gone
last_value-split name found ([] ∷ before) after x more gone =
    last_value-split name found before after x more gone
last_value-split name found ((n ∷ []) ∷ before) after x more gone =
    last_value-split name found before after x more gone
last_value-split name found ((n ∷ value ∷ tail) ∷ before) after x more gone =
    last_value-split name (ite (bytes_discrete n name) (some value) found) before after x more gone

last_value-LastTag :
    (name : Bytes) (tags : List (List Bytes)) (x : Bytes)
    → (last_value name none tags ≡ some x) ↔ LastTag name tags x
last_value-LastTag name tags x = (
  λ h. elim (last_value_sound name none tags x h) [
    | inl l ↦ l
    | inr (gone, same) ↦ absurd (ground (arith, same))
  ],
  λ l.
      ap (last_value name none) l.split
      ∙ last_value-split name none l.before l.after x l.more l.last,
)

u≢method : str "u" ≢ str "method"
u≢method e = ground (arith, e)

tag_loop-last_value :
    (u m : Option Bytes) (tags : List (List Bytes))
    → (tag_loop u m tags).0 ≡ last_value (str "u") u tags
      × (tag_loop u m tags).1 ≡ last_value (str "method") m tags
unfolding tag_loop last_value
tag_loop-last_value u m [] = (refl, refl)
tag_loop-last_value u m ([] ∷ rest) = tag_loop-last_value u m rest
tag_loop-last_value u m ((n ∷ []) ∷ rest) = tag_loop-last_value u m rest
tag_loop-last_value u m ((n ∷ value ∷ more) ∷ rest) =
    let u' = ite (bytes_discrete n (str "u")) (some value) u in
    let m' = ite (bytes_discrete n (str "method")) (some value) m in
    let same : ite (bytes_discrete n (str "u")) m m' ≡ m' = elim (bytes_discrete n (str "u")) [
      | yes e ↦
          if_pos (bytes_discrete n (str "u")) e m m'
          ∙ sym (
              if_neg (bytes_discrete n (str "method")) (λ e'. u≢method (sym e ∙ e')) (some value) m)
      | no e ↦ if_neg (bytes_discrete n (str "u")) e m m'
    ] in
    let rest' = tag_loop-last_value u' m' rest in
    (
      ap (λ q. (tag_loop u' q rest).0) same ∙ rest'.0,
      ap (λ q. (tag_loop u' q rest).1) same ∙ rest'.1,
    )

-- What the loop finds are the values of the last tags of the two names.
pub tag_loop-LastTag :
    (tags : List (List Bytes)) (x : Bytes)
    → ((tag_loop none none tags).0 ≡ some x) ↔ LastTag (str "u") tags x
tag_loop-LastTag tags x =
    let e = (tag_loop-last_value none none tags).0 in
    let (to, from) = last_value-LastTag (str "u") tags x in (λ h. to (sym e ∙ h), λ l. e ∙ from l)

pub tag_loop_method-LastTag :
    (tags : List (List Bytes)) (x : Bytes)
    → ((tag_loop none none tags).1 ≡ some x) ↔ LastTag (str "method") tags x
tag_loop_method-LastTag tags x =
    let e = (tag_loop-last_value none none tags).1 in
    let (to, from) = last_value-LastTag (str "method") tags x in
    (λ h. to (sym e ∙ h), λ l. e ∙ from l)
