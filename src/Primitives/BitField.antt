-- ===== src/Primitives/BitField.antt =====
-- boofuzz/primitives/bit_field.py. A text is the list of its code points, a byte string the list of
-- its bytes, a Python int an integer of `Base.Int`; `none` is an exception.
pub mod Binary
pub mod Render
pub mod FuzzLib
pub mod Decimal
use Prim.Native.Nat.{bit_and}
use boofuzz.Base.{
  ℕ, zero, suc, ◌+◌, ◌-◌, ◌*◌, ◌/◌, ◌%◌, ◌^◌, Bool, true, false, ◌&&◌, List, [], ◌∷◌, ◌++◌, reverse,
  map, Option, none, some, ltb, leb, ◌==◌, if◌then◌else◌, length, take, drop, replicate, range_from,
  ◌>>=◌,
}
use boofuzz.Base.Int.{ℤ, pos, negsuc, ◌+ℤ◌, ◌-ℤ◌, ltb_ℤ}

-- The constants LITTLE_ENDIAN and BIG_ENDIAN.
pub data Endian : Type 0 where
  little big : Endian

-- output_format: "binary", or anything else.
pub data OutputFormat : Type 0 where
  binary ascii : OutputFormat

abbrev pub binary_digit : ℕ → Option ℕ
binary_digit c = if c == b'0' then some 0 else if c == b'1' then some 1 else none

unfoldable pub parse_binary : ℕ → List ℕ → Option ℕ
parse_binary acc [] = some acc
parse_binary acc (c ∷ cs) = elim (binary_digit c) [
  | none ↦ none
  | some d ↦ parse_binary (acc * 2 + d) cs
]

-- `int(binary, 2)` on the texts of digits that it is given here; the empty text is a ValueError.
unfoldable pub binary_string_to_int : List ℕ → Option ℕ
unfolding parse_binary
binary_string_to_int [] = none
binary_string_to_int (c ∷ cs) = parse_binary 0 (c ∷ cs)

-- `(number >> x) & 1`: a negative number is read in two's complement.
abbrev pub bit_at : ℤ → ℕ → ℕ
bit_at (pos n) x = n / 2 ^ x % 2
bit_at (negsuc n) x = 1 - n / 2 ^ x % 2

-- The bits from `bit_width - 1` down to 0.
unfoldable pub int_to_binary_string : ℤ → ℕ → List ℕ
int_to_binary_string number zero = []
int_to_binary_string number (suc x) = (b'0' + bit_at number x) ∷ int_to_binary_string number x

-- `struct.pack("B", x)`.
abbrev pub pack_byte : ℕ → Option ℕ
pack_byte x = if ltb x 256 then some x else none

-- The rounds from `i` of the loop that packs each eight bits of the stream into a byte.
unfoldable pub pack_chunks : ℕ → ℕ → List ℕ → Option (List ℕ)
pack_chunks i zero bit_stream = some []
pack_chunks i (suc k) bit_stream = do
  x ← binary_string_to_int (take 8 (drop (8 * i) bit_stream))
  b ← pack_byte x
  rest ← pack_chunks (i + 1) k bit_stream
  some (b ∷ rest)

-- The bit stream, padded in front.
unfoldable pub pad_bits : ℤ → ℕ → List ℕ
pad_bits value bit_width =
    if bit_width % 8 == 0
    then int_to_binary_string value bit_width
    else replicate (8 - bit_width % 8) b'0' ++ int_to_binary_string value bit_width

-- `rendered[::-1]` for little endian.
abbrev pub order_bytes : Endian → List ℕ → List ℕ
order_bytes little rendered = reverse rendered
order_bytes big rendered = rendered

unfoldable pub render_binary : ℤ → ℕ → Endian → Option (List ℕ)
render_binary value bit_width endian = do
  let bit_stream = pad_bits value bit_width
  rendered ← pack_chunks 0 (length bit_stream / 8) bit_stream
  some (order_bytes endian rendered)

unfoldable pub decimal_digits : ℕ → ℕ → List ℕ
decimal_digits zero n = []
decimal_digits (suc fuel) n =
    let rest = decimal_digits fuel (n / 10) ++ (b'0' + n % 10) ∷ [] in
    if ltb n 10 then (b'0' + n) ∷ [] else rest

-- `"%d" % value`; a number has fewer digits than it has units, plus one.
unfoldable pub format_d : ℤ → List ℕ
unfolding decimal_digits
format_d (pos n) = decimal_digits (n + 1) n
format_d (negsuc n) = b'-' ∷ decimal_digits (n + 2) (n + 1)

-- `value & mask` for a mask that is not negative.
abbrev pub and_mask : ℤ → ℕ → ℕ
and_mask (pos n) mask = bit_and n mask
and_mask (negsuc n) mask = mask - bit_and n mask

-- Is the text's character 0 a "1"? `none` is the IndexError of an empty text.
abbrev pub starts_with_one : List ℕ → Option Bool
starts_with_one [] = none
starts_with_one (c ∷ _) = some (c == b'1')

-- The branch of `_render_int` for a raised sign bit.
unfoldable pub render_negative : ℤ → ℕ → Option (List ℕ)
render_negative value bit_width = do
  max_num ← binary_string_to_int (b'1' ∷ replicate (bit_width - 1) b'0')
  mask ← binary_string_to_int (replicate (bit_width - 1) b'1')
  let val = pos max_num -ℤ pos (and_mask value mask) -ℤ pos 1
  some (format_d (negsuc 0 -ℤ val))

unfoldable pub render_ascii : ℤ → ℕ → Bool → Option (List ℕ)
render_ascii value bit_width false = some (format_d value)
render_ascii value bit_width true = do
  negative ← starts_with_one (int_to_binary_string value bit_width)
  if negative then render_negative value bit_width else some (format_d value)

-- `_render_int`. Both kinds of result go through `helpers.str_to_bytes`, which leaves the bytes and
-- encodes the ASCII text to the same numbers.
unfoldable pub render_int : ℤ → OutputFormat → ℕ → Endian → Bool → Option (List ℕ)
render_int value binary bit_width endian signed = render_binary value bit_width endian
render_int value ascii bit_width endian signed = render_ascii value bit_width signed

pub record BitField : Type 0 where
  pub width : ℕ
  pub max_num : ℕ
  pub endian : Endian
  pub format : OutputFormat
  pub signed : Bool
  pub full_range : Bool
  pub interesting_boundaries : List ℕ

-- `list.sort()` on numbers.
pub sort_insert : ℕ → List ℕ → List ℕ
sort_insert x [] = x ∷ []
sort_insert x (y ∷ ys) = if leb x y then x ∷ y ∷ ys else y ∷ sort_insert x ys

pub sort : List ℕ → List ℕ
unfolding sort_insert
sort [] = []
sort (x ∷ xs) = sort_insert x (sort xs)

abbrev pub boundaries_of : ℕ → List ℕ
boundaries_of m = 0 ∷ m / 2 ∷ m / 3 ∷ m / 4 ∷ m / 8 ∷ m / 16 ∷ m / 32 ∷ m ∷ []

-- `if not self.max_num`: none and 0 take the width's bound.
abbrev pub default_max_num : Option ℕ → ℕ → ℕ
default_max_num none width = 2 ^ width
default_max_num (some m) width = if m == 0 then 2 ^ width else m

-- The constructor.
unfoldable pub bit_field : ℕ → Option ℕ → Endian → OutputFormat → Bool → Bool → BitField
unfolding sort
bit_field width max_num endian format signed full_range =
    let m = default_max_num max_num width in
    record {
      width = width;
      max_num = m;
      endian = endian;
      format = format;
      signed = signed;
      full_range = full_range;
      interesting_boundaries = if full_range then [] else sort (boundaries_of m);
    }

module _ (max_num : ℕ) where
  -- The rounds of `for i in range(-10, 10)` that are left, at the next case.
  pub yield_cases : ℕ → ℤ → ℤ → List ℤ
  yield_cases zero lower_border case = []
  yield_cases (suc n) lower_border case =
      let rest = yield_cases n lower_border (case +ℤ pos 1) in
      if ltb_ℤ lower_border case && ltb_ℤ case (pos max_num) then case ∷ rest else rest

  pub yield_integer_boundaries : ℕ → ℤ → List ℤ
  unfolding yield_cases
  yield_integer_boundaries integer lower_border =
      yield_cases 20 lower_border (pos integer -ℤ pos 10)

  -- The last value that was yielded, or the border before it.
  pub last_yielded : ℤ → List ℤ → ℤ
  last_yielded lower_border [] = lower_border
  last_yielded lower_border (v ∷ vs) = last_yielded v vs

  pub iterate_boundaries : ℤ → List ℕ → List ℤ
  iterate_boundaries lower_border [] = []
  iterate_boundaries lower_border (boundary ∷ rest) =
      let vs = yield_integer_boundaries boundary lower_border in
      vs ++ iterate_boundaries (last_yielded lower_border vs) rest

-- `_iterate_fuzz_lib`, which is also `mutations`.
unfoldable pub iterate_fuzz_lib : BitField → List ℤ
unfolding iterate_boundaries yield_integer_boundaries last_yielded
iterate_fuzz_lib f =
    if f.full_range
    then map pos (range_from 0 f.max_num)
    else iterate_boundaries f.max_num (negsuc 0) f.interesting_boundaries

unfoldable pub encode : BitField → ℤ → Option (List ℕ)
unfolding render_int render_binary render_ascii render_negative pack_chunks pad_bits
    int_to_binary_string binary_string_to_int format_d
encode f value = render_int value f.format f.width f.endian f.signed
