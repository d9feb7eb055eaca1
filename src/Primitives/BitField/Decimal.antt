-- ===== src/Primitives/BitField/Decimal.antt =====
-- The decimal form of a field: the number that the digits of a text stand for, and the integer
-- that a signed field writes.
use native.Mathlib.Nat.{pow-suc, mod-eq_of_lt, mod-eq-sub-mod, div-eq_of_lt, div-eq_of_lt-le}
use boofuzz.Base.{
  ℕ, zero, suc, ◌+◌, ◌-◌, ◌*◌, ◌/◌, ◌%◌, ◌^◌, ◌≤◌, ◌<◌, ◌≡◌, refl, ap, ◌∙◌, inl, inr, true, false,
  List, [], ◌∷◌, ◌++◌, some, replicate, All, length-replicate, leb, ltb, if◌then◌else◌, arith,
  Bool-cases,
}
use boofuzz.Base.Bits.{bit_and_low}
use boofuzz.Base.Int.{ℤ, pos, negsuc, ◌-ℤ◌, int_laws}
use boofuzz.Primitives.BitField.{
  Endian, ascii, render_int, render_negative, render_ascii, format_d, decimal_digits,
  binary_string_to_int, starts_with_one, int_to_binary_string,
}
use boofuzz.Primitives.BitField.Binary.{bits_value, IsBit, parse_binary_lem, bits_value_split}
use boofuzz.Primitives.BitField.Render.{zeros_value, zeros-IsBit}

-- The number that a text of decimal digits stands for, after what was read before it.
abbrev pub decimal_value : ℕ → List ℕ → ℕ
decimal_value acc [] = acc
decimal_value acc (c ∷ cs) = decimal_value (acc * 10 + (c - b'0')) cs

-- The integer that the low `w` bits of a number stand for in two's complement.
abbrev pub signed_value : ℕ → ℕ → ℤ
signed_value v w = if ltb v (2 ^ (w - 1)) then pos v else negsuc (2 ^ w - 1 - v)

leb→not_ltb : (a b : ℕ) → leb a b ≡ true → ltb b a ≡ false
leb→not_ltb a b h = ground arith

not_leb→ltb : (a b : ℕ) → leb a b ≡ false → ltb b a ≡ true
not_leb→ltb a b h = ground arith

ones_value : (acc n : ℕ) → bits_value acc (replicate n b'1') + 1 ≡ (acc + 1) * 2 ^ n
ones_value acc zero = omega arith
ones_value acc (suc n) =
    omega
      (arith, ones_value (acc * 2 + (b'1' - b'0')) n, ap (λ (t : ℕ). (acc + 1) * t) (pow-suc 2 n))

ones-IsBit : (n : ℕ) → All IsBit (replicate n b'1')
ones-IsBit zero = tt
ones-IsBit (suc n) = (inr refl, ones-IsBit n)

-- `int("1" + "0" * n, 2)`, which is also how the constructor finds the bound of a width.
pub one_zeros : (n : ℕ) → binary_string_to_int (b'1' ∷ replicate n b'0') ≡ some (2 ^ n)
unfolding binary_string_to_int
one_zeros n =
    parse_binary_lem 0 (b'1' ∷ replicate n b'0') (inr refl, zeros-IsBit n)
    ∙ ap some (
        omega (
          arith,
          bits_value_split (0 * 2 + (b'1' - b'0')) (replicate n b'0'),
          zeros_value n,
          ap (λ (t : ℕ). 2 ^ t) (length-replicate {A = ℕ} n b'0'),
        ))

all_ones : (n : ℕ) → 0 < n → binary_string_to_int (replicate n b'1') ≡ some (2 ^ n - 1)
unfolding binary_string_to_int
all_ones zero h = elim h [ ]
all_ones (suc n) h =
    parse_binary_lem 0 (replicate (suc n) b'1') (ones-IsBit (suc n))
    ∙ ap some (omega (arith, ones_value 0 (suc n)))

sign_bit :
    (v w : ℕ)
    → v < 2 ^ suc w
    → starts_with_one (int_to_binary_string (pos v) (suc w)) ≡ some (leb (2 ^ w) v)
unfolding int_to_binary_string
sign_bit v w h = elim (Bool-cases (leb (2 ^ w) v)) [
  | inl high ↦
      rw (high, div-eq_of_lt-le {k = 1} (2 ^ w) {m = v} (ground arith) (omega (arith, pow-suc 2 w)))
  | inr low ↦ rw (low, div-eq_of_lt {n = v} {m = 2 ^ w} (ground arith))
]

pred_lem : (w : ℕ) → suc w - 1 ≡ w
pred_lem w = omega arith

high_part : (v w : ℕ) → 2 ^ w ≤ v → v < 2 ^ suc w → v % 2 ^ w ≡ v - 2 ^ w
high_part v w h k =
    mod-eq-sub-mod h ∙ mod-eq_of_lt {n = v - 2 ^ w} {m = 2 ^ w} (omega (arith, pow-suc 2 w))

complemented :
    (v w : ℕ)
    → 2 ^ w ≤ v
    → v < 2 ^ suc w
    → negsuc 0 -ℤ (pos (2 ^ w) -ℤ pos (v % 2 ^ w) -ℤ pos 1) ≡ negsuc (2 ^ suc w - 1 - v)
complemented v w h k = omega (int_laws, high_part v w h k, pow-suc 2 w)

render_negative_lem :
    (v w : ℕ)
    → 0 < w
    → 2 ^ w ≤ v
    → v < 2 ^ suc w
    → render_negative (pos v) (suc w) ≡ some (format_d (negsuc (2 ^ suc w - 1 - v)))
unfolding render_negative
render_negative_lem v w h k l =
    rw (pred_lem w, one_zeros w, all_ones w h, bit_and_low w v)
      (ap some (ap format_d (complemented v w k l)))

-- A number in range of a signed ASCII field of two or more bits is written as the decimal form of
-- the integer that its bits stand for in two's complement.
pub render_int-ascii :
    (v w : ℕ) (endian : Endian)
    → 2 ≤ w
    → v < 2 ^ w
    → render_int (pos v) ascii w endian true ≡ some (format_d (signed_value v w))
unfolding render_int render_ascii
render_int-ascii v zero endian h k = absurd (omega arith)
render_int-ascii v (suc w) endian h k = elim (Bool-cases (leb (2 ^ w) v)) [
  | inl high ↦
      rw (sign_bit v w k, high, pred_lem w, leb→not_ltb (2 ^ w) v high)
        (render_negative_lem v w (omega arith) (ground arith) k)
  | inr low ↦ rw (sign_bit v w k, low, pred_lem w, not_leb→ltb (2 ^ w) v low)
]

-- The digits of a number in decimal stand for that number.
decimal_value-append :
    (acc : ℕ) (cs : List ℕ) (d : ℕ)
    → decimal_value acc (cs ++ (b'0' + d) ∷ []) ≡ decimal_value acc cs * 10 + d
decimal_value-append acc [] d = omega arith
decimal_value-append acc (c ∷ cs) d = decimal_value-append (acc * 10 + (c - b'0')) cs d

decimal_digits_lem : (fuel n : ℕ) → n < fuel → decimal_value 0 (decimal_digits fuel n) ≡ n
unfolding decimal_digits
decimal_digits_lem zero n h = elim h [ ]
decimal_digits_lem (suc fuel) n h = elim (Bool-cases (ltb n 10)) [
  | inl digit ↦ rw digit (omega arith)
  | inr more ↦ rw more (
      decimal_value-append 0 (decimal_digits fuel (n / 10)) (n % 10)
      ∙ omega (arith, decimal_digits_lem fuel (n / 10) (ground arith)))
]

-- The text of digits stands for the integer.
abbrev pub Denotes : List ℕ → ℤ → Type 0
Denotes text (pos n) = decimal_value 0 text ≡ n
Denotes text (negsuc n) =
    (digits : List ℕ) × (text ≡ b'-' ∷ digits) × (decimal_value 0 digits ≡ suc n)

-- What `"%d"` writes for an integer stands for it: the digits of its number, after a minus sign when
-- it is negative.
pub format_d-Denotes : (v : ℤ) → Denotes (format_d v) v
unfolding format_d
format_d-Denotes (pos n) = decimal_digits_lem (n + 1) n (omega arith)
format_d-Denotes (negsuc n) = (
  decimal_digits (n + 2) (n + 1),
  refl,
  decimal_digits_lem (n + 2) (n + 1) (omega arith) ∙ omega arith,
)
