-- ===== src/Primitives/BitField/Binary.antt =====
-- What a text of binary digits stands for, and the digits of an integer.
use native.Mathlib.Nat.{pow-suc, one-le-pow, div-add-mod', div-div-eq-div-mul, mod-lt, mul_comm}
use boofuzz.Base.{
  ℕ, zero, suc, ◌+◌, ◌-◌, ◌*◌, ◌/◌, ◌%◌, ◌^◌, ◌<◌, ◌≡◌, refl, ap, ◌∙◌, ◌⊎◌, inl, inr, List, [], ◌∷◌,
  ◌++◌, some, length, All, arith,
}
use boofuzz.Base.Int.{ℤ, pos, negsuc}
use boofuzz.Primitives.BitField.{parse_binary, int_to_binary_string, bit_at, binary_string_to_int}

mod_double : (n p : ℕ) → n % (p * 2) ≡ n / p % 2 * p + n % p
mod_double n p = omega (
  arith,
  div-add-mod' n p,
  div-add-mod' n (p * 2),
  div-div-eq-div-mul n p 2,
  ap (λ (t : ℕ). n / p / 2 * t) (mul_comm p 2),
  ap (λ (t : ℕ). t * (p * 2)) (div-div-eq-div-mul n p 2),
  ap (λ (t : ℕ). t * p) (div-add-mod' (n / p) 2),
)

-- The value of the low `width` bits, as an unsigned number.
abbrev pub unsigned : ℤ → ℕ → ℕ
unsigned (pos n) width = n % 2 ^ width
unsigned (negsuc n) width = 2 ^ width - 1 - n % 2 ^ width

pub unsigned-lt : (v : ℤ) (width : ℕ) → unsigned v width < 2 ^ width
unsigned-lt (pos n) width = mod-lt n (one-le-pow width 2 (omega arith))
unsigned-lt (negsuc n) width = omega (arith, one-le-pow width 2 (omega arith))

complement_digit : (b p r : ℕ) → b < 2 → r < p → p * 2 - 1 - (b * p + r) ≡ (1 - b) * p + (p - 1 - r)
complement_digit zero p r h k = omega arith
complement_digit (suc zero) p r h k = omega arith
complement_digit (suc (suc b)) p r h k = absurd (omega arith)

unsigned-suc :
    (v : ℤ) (width : ℕ) → unsigned v (suc width) ≡ bit_at v width * 2 ^ width + unsigned v width
unsigned-suc (pos n) width = rw pow-suc (mod_double n (2 ^ width))
unsigned-suc (negsuc n) width =
    rw (pow-suc, mod_double n (2 ^ width))
      (complement_digit (n / 2 ^ width % 2) (2 ^ width) (n % 2 ^ width) (omega arith)
        (mod-lt n (one-le-pow width 2 (omega arith))))

abbrev pub IsBit : ℕ → Type 0
IsBit c = (c ≡ b'0') ⊎ (c ≡ b'1')

pub bit_at-lt : (v : ℤ) (x : ℕ) → bit_at v x < 2
bit_at-lt (pos n) x = omega arith
bit_at-lt (negsuc n) x = omega arith

IsBit-of_lt : (b : ℕ) → b < 2 → IsBit (b'0' + b)
IsBit-of_lt b h = omega arith

pub int_to_binary_string-IsBit : (v : ℤ) (w : ℕ) → All IsBit (int_to_binary_string v w)
unfolding int_to_binary_string
int_to_binary_string-IsBit v zero = tt
int_to_binary_string-IsBit v (suc w) =
    (IsBit-of_lt (bit_at v w) (bit_at-lt v w), int_to_binary_string-IsBit v w)

pub length-int_to_binary_string : (v : ℤ) (w : ℕ) → length (int_to_binary_string v w) ≡ w
unfolding int_to_binary_string
length-int_to_binary_string v zero = refl
length-int_to_binary_string v (suc w) = ap suc (length-int_to_binary_string v w)

-- The digits' value, most significant first.
abbrev pub bits_value : ℕ → List ℕ → ℕ
bits_value acc [] = acc
bits_value acc (c ∷ cs) = bits_value (acc * 2 + (c - b'0')) cs

pub bits_value_split :
    (acc : ℕ) (cs : List ℕ) → bits_value acc cs ≡ acc * 2 ^ length cs + bits_value 0 cs
bits_value_split acc [] = omega arith
bits_value_split acc (c ∷ cs) = omega (
  arith,
  bits_value_split (acc * 2 + (c - b'0')) cs,
  bits_value_split (0 * 2 + (c - b'0')) cs,
  ap (λ (t : ℕ). acc * t) (pow-suc 2 (length cs)),
)

pub bits_value-append :
    (acc : ℕ) (cs ds : List ℕ) → bits_value acc (cs ++ ds) ≡ bits_value (bits_value acc cs) ds
bits_value-append acc [] ds = refl
bits_value-append acc (c ∷ cs) ds = bits_value-append (acc * 2 + (c - b'0')) cs ds

pub bits_value-lt : (cs : List ℕ) → All IsBit cs → bits_value 0 cs < 2 ^ length cs
bits_value-lt [] h = omega arith
bits_value-lt (c ∷ cs) (h, k) =
    ground
      (arith, bits_value_split (0 * 2 + (c - b'0')) cs, bits_value-lt cs k, pow-suc 2 (length cs))

pub parse_binary_lem :
    (acc : ℕ) (cs : List ℕ) → All IsBit cs → parse_binary acc cs ≡ some (bits_value acc cs)
unfolding parse_binary
parse_binary_lem acc [] h = refl
parse_binary_lem acc (c ∷ cs) (inl e, k) = rw e (parse_binary_lem (acc * 2 + 0) cs k)
parse_binary_lem acc (c ∷ cs) (inr e, k) = rw e (parse_binary_lem (acc * 2 + 1) cs k)

digit_back : (b : ℕ) → 0 * 2 + (b'0' + b - b'0') ≡ b
digit_back b = omega arith

pub bits_value_digits : (v : ℤ) (w : ℕ) → bits_value 0 (int_to_binary_string v w) ≡ unsigned v w
unfolding int_to_binary_string
bits_value_digits (pos n) zero = omega arith
bits_value_digits (negsuc n) zero = omega arith
bits_value_digits v (suc w) = omega (
  arith,
  bits_value_split (0 * 2 + (b'0' + bit_at v w - b'0')) (int_to_binary_string v w),
  bits_value_digits v w,
  unsigned-suc v w,
  ap (λ (t : ℕ). t * 2 ^ length (int_to_binary_string v w)) (digit_back (bit_at v w)),
  ap (λ (t : ℕ). bit_at v w * 2 ^ t) (length-int_to_binary_string v w),
)

-- A positive width: `int(int_to_binary_string(v, w), 2)` is the unsigned value of the low `w`
-- bits of `v`, also for a negative `v`.
pub binary_string_to_int-int_to_binary_string :
    (v : ℤ) (w : ℕ) → 0 < w → binary_string_to_int (int_to_binary_string v w) ≡ some (unsigned v w)
unfolding binary_string_to_int int_to_binary_string
binary_string_to_int-int_to_binary_string v zero h = elim h [ ]
binary_string_to_int-int_to_binary_string v (suc w) h =
    parse_binary_lem 0 (int_to_binary_string v (suc w)) (int_to_binary_string-IsBit v (suc w))
    ∙ ap some (bits_value_digits v (suc w))
