-- ===== src/P2p/Codec/Resync.antt =====
-- How `read_message` of crates/wolfe-p2p/src/message.rs finds the magic again.
use bitcoin_wolfe.Prelude.{
  ℕ, zero, suc, ◌+◌, ◌-◌, ◌≤◌, ◌<◌, ◌≡◌, refl, sym, ap, ◌∙◌, inl, inr, Bool-cases, Option-cases,
  ltb→lt, ltb-false, leb→le, leb-false, leb, none, some, List, [], ◌∷◌, ◌++◌, if_pos, if_neg, ltb,
  min, length, length-append, take, drop, take-take, take-append_drop, take-append_left,
  length-take, length-take-le, length-drop, arith,
}
use mathlib.Core.List.{append_assoc}
use mathlib.Core.Path.{subst}
use bitcoin_wolfe.Bytes.{Bytes, bytes_discrete}
use bitcoin_wolfe.P2p.Stream.{
  Stream, Read, ok, err, stuck, piece, read, read_exact-short, read_exact-enough,
}
use bitcoin_wolfe.P2p.Codec.{
  max_resync_bytes, position, header_at, tail, after_read, resync, read_header,
}

-- What is found in `before`, the bytes that are still to come: a header of 24 bytes that begins with
-- the magic. `lost` stands between the header and what is read next.
abbrev pub Found : Bytes → Bytes → Read Bytes → Type 0
Found expected before (ok (header, s)) =
    (skipped : Bytes) × (lost : Bytes) × (before ≡ skipped ++ (header ++ (lost ++ s.bytes)))
    × (length header ≡ 24)
    × (take 4 header ≡ expected)
Found expected before (err e s) = Unit
Found expected before stuck = ⊥

Found-append :
    (expected before first : Bytes) (r : Read Bytes)
    → Found expected before r
    → Found expected (first ++ before) r
Found-append expected before first (ok (header, s)) (skipped, lost, e, l, m) = (
  first ++ skipped,
  lost,
  ap (λ b. first ++ b) e ∙ sym (append_assoc first skipped (header ++ (lost ++ s.bytes))),
  l,
  m,
)
Found-append expected before first (err x s) f = tt
Found-append expected before first stuck f = f

position-some :
    (expected window : Bytes) (pos : ℕ)
    → position expected window ≡ some pos
    → take 4 (drop pos window) ≡ expected
unfolding position
position-some expected [] pos e = absurd (ground (arith, e))
position-some expected (b ∷ rest) pos e = elim (bytes_discrete (take 4 (b ∷ rest)) expected) [
  | yes here ↦
      let found : some 0 ≡ some pos =
        sym (rw (if_pos (bytes_discrete (take 4 (b ∷ rest)) expected) here) refl) ∙ e in
      let zeroth : pos ≡ 0 = ground (arith, found) in rw (zeroth) here
  | no other ↦ elim (Option-cases (position expected rest)) [
    | inl absent ↦
        let gone : none ≡ some pos =
          sym (rw (if_neg (bytes_discrete (take 4 (b ∷ rest)) expected) other) (rw (absent) refl))
          ∙ e in
        absurd (ground (arith, gone))
    | inr (q, later) ↦
        let found : some (suc q) ≡ some pos =
          sym (rw (if_neg (bytes_discrete (take 4 (b ∷ rest)) expected) other) (rw (later) refl))
          ∙ e in
        let next : pos ≡ suc q = ground (arith, found) in
        rw (next) (position-some expected rest q later)
  ]
]

piece-positive : (limit : ℕ) (pieces : List ℕ) → 0 < limit → 0 < piece limit pieces
unfolding piece
piece-positive limit [] h = h
piece-positive limit (p ∷ rest) h = omega arith

header_at-Found :
    (expected window : Bytes) (pos : ℕ) (s : Stream)
    → length expected ≡ 4
    → take 4 (drop pos window) ≡ expected
    → Found expected (window ++ s.bytes) (header_at window pos s)
unfolding header_at
header_at-Found expected window pos s four e =
    let there = drop pos window in
    let split : take pos window ++ (there ++ s.bytes) ≡ window ++ s.bytes =
      sym (append_assoc (take pos window) there s.bytes)
      ∙ ap (λ b. b ++ s.bytes) (take-append_drop pos window) in
    let len = length-drop pos window in
    elim (Bool-cases (leb 24 (length window - pos))) [
      | inl whole ↦
          let enough : 24 ≤ length there = omega (arith, len, leb→le _ _ whole) in
          rw (whole, header_at)
            (
              take pos window,
              drop 24 there,
              sym split
                  ∙ ap (λ b. take pos window ++ (b ++ s.bytes)) (sym (take-append_drop 24 there))
                  ∙ ap (λ b. take pos window ++ b)
                      (append_assoc (take 24 there) (drop 24 there) s.bytes),
              length-take 24 there enough,
              take-take 4 24 there (omega arith) ∙ e,
            )
      | inr part ↦
          let missing = 24 - (length window - pos) in
          elim (Bool-cases (ltb (length s.bytes) missing)) [
            | inl short ↦
                rw (part, header_at) (rw (read_exact-short missing s (ltb→lt _ _ short)) tt)
            | inr long ↦
                let enough : missing ≤ length s.bytes = ltb-false _ _ long in
                let rest = take missing s.bytes in
                let begun : 4 ≤ length there =
                  omega (arith, ap length e, four, length-take-le 4 there) in
                rw (part, header_at)
                  (rw (read_exact-enough missing s enough) (
                    take pos window,
                    [],
                    sym split
                        ∙ ap (λ b. take pos window ++ (there ++ b))
                            (sym (take-append_drop missing s.bytes))
                        ∙ ap (λ b. take pos window ++ b)
                            (sym (append_assoc there rest (drop missing s.bytes))),
                    omega (
                      arith,
                      length-append there rest,
                      length-take missing s.bytes enough,
                      len,
                      leb-false _ _ part,
                    ),
                    take-append_left 4 there rest begun ∙ e,
                  ))
          ]
    ]

read-append : (limit : ℕ) (s : Stream) → (read limit s).0 ++ (read limit s).1.bytes ≡ s.bytes
unfolding read
read-append limit s = take-append_drop (piece limit s.pieces) s.bytes

-- The window before its last three bytes.
front : Bytes → Bytes
front window = take (length window - min (length window) 3) window

front-append_tail : (window rest : Bytes) → front window ++ (tail window ++ rest) ≡ window ++ rest
unfolding front tail
front-append_tail window rest =
    let n = length window - min (length window) 3 in
    sym (append_assoc (take n window) (drop n window) rest)
    ∙ ap (λ b. b ++ rest) (take-append_drop n window)

after_read-Found :
    (expected window chunk : Bytes) (s : Stream) (next : Read Bytes)
    → (0 < length chunk → Found expected ((tail window ++ chunk) ++ s.bytes) next)
    → Found expected (window ++ (chunk ++ s.bytes)) (after_read chunk s next)
unfolding after_read
after_read-Found expected window [] s next f = tt
after_read-Found expected window (b ∷ bs) s next f =
    let e : front window ++ ((tail window ++ (b ∷ bs)) ++ s.bytes)
        ≡ window ++ ((b ∷ bs) ++ s.bytes) =
      ap (λ x. front window ++ x) (append_assoc (tail window) (b ∷ bs) s.bytes)
      ∙ front-append_tail window ((b ∷ bs) ++ s.bytes) in
    subst (λ x. Found expected x next) e
      (Found-append expected ((tail window ++ (b ∷ bs)) ++ s.bytes) (front window) next
        (f (omega arith)))

resync-Found :
    (fuel : ℕ) (expected window : Bytes) (scanned : ℕ) (s : Stream)
    → length expected ≡ 4
    → length s.bytes < fuel
    → Found expected (window ++ s.bytes) (resync fuel expected window scanned s)
unfolding resync
resync-Found zero expected window scanned s four enough = absurd (omega (arith, enough))
resync-Found (suc fuel) expected window scanned s four enough =
    elim (Option-cases (position expected window)) [
      | inr (pos, e) ↦
          rw (e, resync)
            (header_at-Found expected window pos s four (position-some expected window pos e))
      | inl e ↦
          let scanned' = scanned + (length window - 3) in
          elim (Bool-cases (ltb max_resync_bytes scanned')) [
            | inl far ↦ rw (e, resync) (rw (far) tt)
            | inr near ↦
                let chunk = read 512 s in
                let next = resync fuel expected (tail window ++ chunk.0) scanned' chunk.1 in
                let step = λ (positive : 0 < length chunk.0).
                  resync-Found fuel expected (tail window ++ chunk.0) scanned' chunk.1 four (
                    omega (
                      arith,
                      enough,
                      positive,
                      ap length (read-append 512 s),
                      length-append chunk.0 chunk.1.bytes,
                    )) in
                rw (e, resync)
                  (rw (near) (
                    subst (λ x. Found expected (window ++ x) (after_read chunk.0 chunk.1 next))
                      (read-append 512 s)
                      (after_read-Found expected window chunk.0 chunk.1 next step)))
          ]
    ]

-- `read_header` ends, whatever the pieces in which the stream arrives. What it returns is a header of
-- 24 bytes that stands in the stream and begins with the magic.
pub read_header-Found :
    (magic : Bytes) (s : Stream) → length magic ≡ 4 → Found magic s.bytes (read_header magic s)
unfolding read_header
read_header-Found magic s four = elim (Bool-cases (ltb (length s.bytes) 24)) [
  | inl short ↦ rw (read_exact-short 24 s (ltb→lt _ _ short)) tt
  | inr long ↦
      let enough : 24 ≤ length s.bytes = ltb-false _ _ long in
      let header = take 24 s.bytes in
      let s' = record s { bytes = drop 24 s.bytes } in
      let whole = take-append_drop 24 s.bytes in
      rw (read_exact-enough 24 s enough) (elim (bytes_discrete (take 4 header) magic) [
        | yes here ↦
            rw (if_pos (bytes_discrete (take 4 header) magic) here)
              ([], [], sym whole, length-take 24 s.bytes enough, here)
        | no other ↦ rw (if_neg (bytes_discrete (take 4 header) magic) other) (
            subst (λ x. Found magic x (resync (suc (length s'.bytes)) magic header 0 s')) whole
              (resync-Found (suc (length s'.bytes)) magic header 0 s' four (omega arith)))
      ])
]
