-- ===== src/Bytes.antt =====
-- Byte strings, and the big-endian numbers of the standard library: `u32::to_be_bytes`,
-- `u64::to_be_bytes`, `from_be_bytes`, and the slice copy of `copy_from_slice`.
pub mod Prefix
use Prim.Native.Char.{code}
use Prim.Native.String.{String}
use native.Mathlib.Nat.{pow-suc, add-zero, zero-add}
use mathlib.Core.List.{append-nil, append_assoc}
use bitcoin_wolfe.Prelude.{
  ℕ, zero, suc, ◌+◌, ◌*◌, ◌/◌, ◌%◌, ◌^◌, ◌<◌, ◌≤◌, ◌≡◌, refl, sym, ap, ◌∙◌, List, [], ◌∷◌, ◌++◌,
  arith, ℕ_discrete, length, length-append, All,
}

abbrev pub Bytes : Type 0
Bytes = List ℕ

-- The bytes of an ASCII text.
abbrev pub str : String → Bytes
str String.[] = []
str (String.◌∷◌ c s) = code c ∷ str s

unfoldable pub bytes_discrete : Discrete Bytes
bytes_discrete = hlevel ℕ_discrete

-- `x.to_be_bytes()` of an integer of `n` bytes.
unfoldable pub to_be_bytes : ℕ → ℕ → Bytes
to_be_bytes zero x = []
to_be_bytes (suc n) x = to_be_bytes n (x / 256) ++ (x % 256) ∷ []

from_be_acc : ℕ → Bytes → ℕ
from_be_acc acc [] = acc
from_be_acc acc (b ∷ bs) = from_be_acc (acc * 256 + b) bs

unfoldable pub from_be_bytes : Bytes → ℕ
unfolding from_be_acc
from_be_bytes bs = from_be_acc 0 bs

from_be_acc-append :
    (acc : ℕ) (bs : Bytes) (b : ℕ) → from_be_acc acc (bs ++ b ∷ []) ≡ from_be_acc acc bs * 256 + b
unfolding from_be_acc
from_be_acc-append acc [] b = refl
from_be_acc-append acc (c ∷ bs) b = from_be_acc-append (acc * 256 + c) bs b

pub from_be-to_be : (n x : ℕ) → x < 256 ^ n → from_be_bytes (to_be_bytes n x) ≡ x
unfolding from_be_bytes to_be_bytes
from_be-to_be zero x h = omega arith
from_be-to_be (suc n) x h =
    let small : x / 256 < 256 ^ n = omega (arith, pow-suc 256 n) in
    omega (
      arith,
      from_be_acc-append 0 (to_be_bytes n (x / 256)) (x % 256),
      from_be-to_be n (x / 256) small,
    )

pub length-to_be : (n x : ℕ) → length (to_be_bytes n x) ≡ n
unfolding to_be_bytes
length-to_be zero x = refl
length-to_be (suc n) x =
    omega
      (arith, length-append (to_be_bytes n (x / 256)) ((x % 256) ∷ []), length-to_be n (x / 256))

pub to_be-injective :
    (n x y : ℕ) → x < 256 ^ n → y < 256 ^ n → to_be_bytes n x ≡ to_be_bytes n y → x ≡ y
to_be-injective n x y hx hy e = cc (from_be-to_be n x hx, from_be-to_be n y hy)

-- `x.to_le_bytes()` of an integer of `n` bytes.
unfoldable pub to_le_bytes : ℕ → ℕ → Bytes
to_le_bytes zero x = []
to_le_bytes (suc n) x = x % 256 ∷ to_le_bytes n (x / 256)

unfoldable pub from_le_bytes : Bytes → ℕ
from_le_bytes [] = 0
from_le_bytes (b ∷ bs) = b + 256 * from_le_bytes bs

pub from_le-to_le : (n x : ℕ) → x < 256 ^ n → from_le_bytes (to_le_bytes n x) ≡ x
unfolding from_le_bytes to_le_bytes
from_le-to_le zero x h = omega arith
from_le-to_le (suc n) x h =
    let small : x / 256 < 256 ^ n = omega (arith, pow-suc 256 n) in
    omega (arith, from_le-to_le n (x / 256) small)

pub length-to_le : (n x : ℕ) → length (to_le_bytes n x) ≡ n
unfolding to_le_bytes
length-to_le zero x = refl
length-to_le (suc n) x = ap suc (length-to_le n (x / 256))

-- Every element is a byte.
abbrev pub AreBytes : Bytes → Type 0
AreBytes bs = All (λ b. b < 256) bs

to_be_bytes-from_be_acc :
    (k acc : ℕ) (bs : Bytes)
    → AreBytes bs
    → to_be_bytes (k + length bs) (from_be_acc acc bs) ≡ to_be_bytes k acc ++ bs
unfolding from_be_acc to_be_bytes
to_be_bytes-from_be_acc k acc [] small = rw (add-zero k) (sym (append-nil (to_be_bytes k acc)))
to_be_bytes-from_be_acc k acc (b ∷ bs) (small, rest) =
    let n : k + suc (length bs) ≡ suc k + length bs = omega arith in
    let quotient : (acc * 256 + b) / 256 ≡ acc = omega (arith, small) in
    let remainder : (acc * 256 + b) % 256 ≡ b = omega (arith, small) in
    ap (λ i. to_be_bytes i (from_be_acc (acc * 256 + b) bs)) n
    ∙ to_be_bytes-from_be_acc (suc k) (acc * 256 + b) bs rest
    ∙ rw (quotient, to_be_bytes) (rw (remainder) (append_assoc (to_be_bytes k acc) (b ∷ []) bs))

pub to_be-from_be : (bs : Bytes) → AreBytes bs → to_be_bytes (length bs) (from_be_bytes bs) ≡ bs
unfolding from_be_bytes to_be_bytes
to_be-from_be bs small =
    ap (λ i. to_be_bytes i (from_be_acc 0 bs)) (sym (zero-add (length bs)))
    ∙ to_be_bytes-from_be_acc 0 0 bs small

mul_le_right : (h w m : ℕ) → w ≤ m → w * h ≤ m * h
mul_le_right h w m p = grind arith

from_be_acc-lt :
    (acc : ℕ) (bs : Bytes) → AreBytes bs → from_be_acc acc bs < (acc + 1) * 256 ^ length bs
unfolding from_be_acc
from_be_acc-lt acc [] small = omega arith
from_be_acc-lt acc (b ∷ bs) (small, rest) =
    let power = 256 ^ length bs in
    let wide = mul_le_right power (acc * 256 + b + 1) ((acc + 1) * 256) (omega (arith, small)) in
    let e : (acc + 1) * 256 * power ≡ (acc + 1) * 256 ^ suc (length bs) =
      rw (pow-suc 256 (length bs)) (grind arith) in
    omega (arith, from_be_acc-lt (acc * 256 + b) bs rest, wide, e)

pub from_be_bytes-lt : (bs : Bytes) → AreBytes bs → from_be_bytes bs < 256 ^ length bs
unfolding from_be_bytes
from_be_bytes-lt bs small = omega (arith, from_be_acc-lt 0 bs small)

pub AreBytes-append : (bs cs : Bytes) → AreBytes bs → AreBytes cs → AreBytes (bs ++ cs)
AreBytes-append [] cs a c = c
AreBytes-append (b ∷ bs) cs (small, a) c = (small, AreBytes-append bs cs a c)

pub AreBytes-to_be : (n x : ℕ) → AreBytes (to_be_bytes n x)
unfolding to_be_bytes
AreBytes-to_be zero x = tt
AreBytes-to_be (suc n) x =
    AreBytes-append (to_be_bytes n (x / 256)) ((x % 256) ∷ []) (AreBytes-to_be n (x / 256))
      (omega arith, tt)
