-- ===== src/Tests/Lightning.antt =====
-- The store of the Lightning node on concrete calls.
use bitcoin_wolfe.Prelude.{
  ◌≡◌, ◌≢◌, refl, Bool, inl, inr, ◌&&◌, not, none, some, List, [], ◌∷◌, arith, if◌then◌else◌,
  if_pos, if_neg, All, sym, ap, ◌∙◌, ℕ_discrete, Bool-cases,
}
use bitcoin_wolfe.Bytes.{Bytes, bytes_discrete, str}
use bitcoin_wolfe.Bytes.Prefix.{is_less}
use bitcoin_wolfe.Map.{MapOps}
use bitcoin_wolfe.Map.Assoc.{lookup, without, Distinct}
use bitcoin_wolfe.Map.Entries.{entries_map, insert_entry, dedup, lookup-dedup, dedup-Distinct}
use bitcoin_wolfe.Lightning.Persister.{
  RangeOps, Call, read, write, remove, list, bytes, not_found, done, keys, call_all,
}
use bitcoin_wolfe.Lightning.Persister.Spec.{Implements, IsPlainCall}
use bitcoin_wolfe.Lightning.Persister.Refines.{call_all-Implements}

unfoldable within : Bytes → Bytes → Bytes → Bool
within low high key = not (is_less key low) && is_less key high

unfoldable select : (Bytes → Bool) → List (Bytes × Bytes) → List (Bytes × Bytes)
select f [] = []
select f ((k, v) ∷ rest) = let more = select f rest in if f k then (k, v) ∷ more else more

lookup-select :
    (f : Bytes → Bool) (es : List (Bytes × Bytes)) (key : Bytes)
    → lookup bytes_discrete key (select f es)
      ≡ (if f key then lookup bytes_discrete key es else none)
unfolding lookup select
lookup-select f [] key = ground arith
lookup-select f ((k, v) ∷ rest) key =
    let later = lookup-select f rest key in
    let behind = λ (e : k ≢ key).
      ap (λ l. if f key then l else none)
        (sym (if_neg (bytes_discrete k key) e (some v) (lookup bytes_discrete key rest))) in
    elim (Bool-cases (f k)) [
      | inl t ↦ elim (bytes_discrete k key) [
        | yes e ↦
            rw (t, sym (ap f e) ∙ t)
              (if_pos (bytes_discrete k key) e (some v) (lookup bytes_discrete key (select f rest))
                ∙ sym (if_pos (bytes_discrete k key) e (some v) (lookup bytes_discrete key rest)))
        | no e ↦ rw (t) (
            if_neg (bytes_discrete k key) e (some v) (lookup bytes_discrete key (select f rest))
            ∙ later
            ∙ behind e)
      ]
      | inr t ↦ elim (bytes_discrete k key) [
        | yes e ↦ let out = sym (ap f e) ∙ t in rw (t, out) (later ∙ (rw (out) refl))
        | no e ↦ rw (t) (later ∙ behind e)
      ]
    ]

select-Distinct :
    (f : Bytes → Bool) (es : List (Bytes × Bytes))
    → Distinct bytes_discrete es
    → Distinct bytes_discrete (select f es)
unfolding select
select-Distinct f [] d = tt
select-Distinct f ((k, v) ∷ rest) (absent, d) =
    let later = select-Distinct f rest d in
    let gone : lookup bytes_discrete k (select f rest) ≡ none =
      lookup-select f rest k
      ∙ (rw (absent) (elim (Bool-cases (f k)) [ inl t ↦ rw (t) refl | inr t ↦ rw (t) refl ])) in
    elim (Bool-cases (f k)) [ inl t ↦ rw (t) ((gone, later)) | inr t ↦ rw (t) later ]

abbrev table : MapOps bytes_discrete Bytes
table = entries_map bytes_discrete

lookup-range :
    (m : List (Bytes × Bytes)) (low high key : Bytes)
    → lookup bytes_discrete key (select (within low high) (dedup bytes_discrete m))
      ≡ (if not (is_less key low) && is_less key high then lookup bytes_discrete key m else none)
unfolding within
lookup-range m low high key =
    lookup-select (within low high) (dedup bytes_discrete m) key
    ∙ (rw (lookup-dedup bytes_discrete m key) refl)

abbrev ranges : RangeOps table
ranges = record {
  range = λ m low high. select (within low high) (dedup bytes_discrete m);
  lookup-range = lookup-range;
  range-Distinct = λ m low high.
      select-Distinct (within low high) (dedup bytes_discrete m) (dedup-Distinct bytes_discrete m);
}

abbrev calls : List Call
calls =
    write (str "m") [] (str "a") (1 ∷ [])
    ∷ write (str "m") (str "u") (str "b") (2 ∷ [])
    ∷ write (str "m") [] (str "a") (3 ∷ [])
    ∷ write (str "n") [] (str "c") (4 ∷ [])
    ∷ read (str "m") [] (str "a")
    ∷ list (str "m") (str "u")
    ∷ list (str "m") []
    ∷ remove (str "m") [] (str "a")
    ∷ read (str "m") [] (str "a")
    ∷ []

calls-IsPlainCall : All IsPlainCall calls
calls-IsPlainCall = ground arith

call_all-Implements_example : Implements (λ n. none) calls (call_all table ranges [] calls)
call_all-Implements_example = call_all-Implements table ranges calls calls-IsPlainCall

replies :
    call_all table ranges [] calls
    ≡ done
      ∷ done
      ∷ done
      ∷ done
      ∷ bytes (3 ∷ [])
      ∷ keys (str "b" ∷ [])
      ∷ keys (str "a" ∷ str "u/b" ∷ [])
      ∷ done
      ∷ not_found
      ∷ []
unfolding call_all within select lookup dedup insert_entry without bytes_discrete is_less ℕ_discrete
replies = refl
