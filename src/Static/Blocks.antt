-- ===== src/Static/Blocks.antt =====
-- boofuzz/__init__.py: the functions that open and close blocks and refer to them.
use boofuzz.Base.{
  ℕ, ◌*◌, Bool, true, false, List, [], ◌∷◌, Option, none, some, ◌>>=◌, ◌==◌, if◌then◌else◌, ◌&&◌,
  ◌||◌, map,
}
use boofuzz.Base.Int.{ℤ, pos}
use boofuzz.Base.Text.{Text, text_eq, codes}
use boofuzz.Primitives.BitField.{Endian, OutputFormat, bit_field}
use boofuzz.Primitives.Leaves.{checksum_library, repeat_library}
use boofuzz.Primitives.Leaves.Sources.{number, listed, nothing}
use boofuzz.Blocks.Element.{
  Value, none_value, bytes, int, DefaultValue, static_value, reference, size, checksum, repeat,
  mirror, Comparison, block, aligned, leaf, node, nil,
}
use boofuzz.Static.{Globals, pushed, popped, attributes}

-- A `dep_value` that is None or bytes.
abbrev pub optional_bytes : Option (List ℕ) → Value
optional_bytes none = none_value
optional_bytes (some b) = bytes b

-- `s_block` and `s_block_start`: a block is opened.
unfoldable pub s_block :
    (name group : Option Text) (encoder : Option (List ℕ → List ℕ)) (dep : Option Text)
    → (dep_value : Option (List ℕ)) (dep_values : List (List ℕ)) (dep_compare : Comparison)
    → Globals
    → Option Globals
s_block name group encoder dep dep_value dep_values dep_compare =
    pushed (codes "Block") name
      (λ n.
        node (attributes n (static_value none_value) true [])
          (block (record {
            group = group;
            encoder = encoder;
            dep = dep;
            dep_value = optional_bytes dep_value;
            dep_values = map (λ b. bytes b) dep_values;
            dep_compare = dep_compare;
          }))
          nil)
      nothing

-- `s_aligned`.
unfoldable pub s_aligned :
    (modulus : ℕ) (pattern : List ℕ) (name : Option Text) → Globals → Option Globals
s_aligned modulus pattern name =
    pushed (codes "Aligned") name
      (λ n. node (attributes n (static_value none_value) true []) (aligned modulus pattern) nil)
      nothing

-- `s_block_end`, and what leaving a `with s_block(...)` or `with s_aligned(...)` does.
abbrev pub s_block_end : Globals → Option Globals
s_block_end = popped

-- The algorithm of a checksum: a name, or a function on bytes.
pub data Algorithm : Type 0 where
  algorithm : Text → Algorithm
  custom : (List ℕ → Option (List ℕ)) → Algorithm

-- `if not self._length and self._algorithm in self.checksum_lengths`.
abbrev pub length_of : Text → ℕ
length_of name =
    if text_eq name (codes "crc32")
      || text_eq name (codes "crc32c")
      || text_eq name (codes "adler32")
    then 4
    else if text_eq name (codes "md5")
    then 16
    else if text_eq name (codes "sha1")
    then 20
    else if text_eq name (codes "ipv4") || text_eq name (codes "udp")
    then 2
    else 0

unfoldable pub checksum_length : Algorithm → ℕ → ℕ
unfolding text_eq
checksum_length (algorithm name) n = if n == 0 then length_of name else n
checksum_length (custom f) n = n

-- `not name`: it is None or empty.
abbrev pub is_missing : Option Text → Bool
is_missing none = true
is_missing (some []) = true
is_missing (some (c ∷ cs)) = false

-- A UDP checksum needs the names of both addresses.
unfoldable pub lacks_addresses : Algorithm → (src dst : Option Text) → Bool
unfolding text_eq
lacks_addresses (algorithm name) src dst =
    text_eq name (codes "udp") && (is_missing src || is_missing dst)
lacks_addresses (custom f) src dst = false

-- `Checksum._checksum` by algorithm, byte order and length, on the data and the two addresses.
module _
    (checksum_by : Algorithm
      → Endian
      → ℕ
      → Option (List ℕ)
      → Option (List ℕ)
      → Option (List ℕ)
      → Option (List ℕ)) where
  -- `s_checksum`. Its guard looks for the block's name among the open blocks, which are no texts, so
  -- that it never holds.
  unfoldable pub s_checksum :
      (block_name : Option Text) (algo : Algorithm) (length : ℕ) (endian : Endian) (fuzzable : Bool)
      → (name ipv4_src_block_name ipv4_dst_block_name : Option Text) → Globals
      → Option Globals
  s_checksum block_name algo length endian fuzzable name ipv4_src_block_name ipv4_dst_block_name g =
      let n = checksum_length algo length in
      if lacks_addresses algo ipv4_src_block_name ipv4_dst_block_name
      then none
      else pushed (codes "Checksum") name
          (λ own. leaf (attributes own (static_value none_value) fuzzable []) (
            checksum (record {
              block_name = block_name;
              length = n;
              checksum = checksum_by algo endian n;
              ipv4_src_block_name = ipv4_src_block_name;
              ipv4_dst_block_name = ipv4_dst_block_name;
            })))
          (listed (map (λ b. bytes b) (checksum_library n))) g

-- The default of a repeat: a session variable with the default 0, or 0.
abbrev pub repeat_default : Option Text → DefaultValue
repeat_default none = static_value (int (pos 0))
repeat_default (some variable) = reference variable (int (pos 0))

-- The numbers of repetitions, where a block and a maximum are given.
abbrev pub repeat_numbers :
    (block_name : Option Text) (min_reps : ℕ) (max_reps : Option ℕ) (step : ℕ) → Option (List ℕ)
repeat_numbers none min_reps max_reps step = some []
repeat_numbers (some b) min_reps none step = some []
repeat_numbers (some b) min_reps (some n) step = repeat_library min_reps n step

-- `s_repeat`.
unfoldable pub s_repeat :
    (block_name : Option Text) (min_reps : ℕ) (max_reps : Option ℕ) (step : ℕ)
    → (variable : Option Text) (fuzzable : Bool) (name : Option Text) → Globals
    → Option Globals
s_repeat block_name min_reps max_reps step variable fuzzable name g = do
  numbers ← repeat_numbers block_name min_reps max_reps step
  pushed (codes "Repeat") name
      (λ n. leaf (attributes n (repeat_default variable) fuzzable []) (repeat block_name))
      (listed (map (λ r. int (pos r)) numbers)) g

abbrev pub math_of : Option (ℤ → ℤ) → ℤ → ℤ
math_of none n = n
math_of (some f) n = f n

-- `s_size`.
unfoldable pub s_size :
    (block_name : Option Text) (offset : ℤ) (length : ℕ) (endian : Endian)
    (output_format : OutputFormat)
    → (inclusive signed : Bool) (math : Option (ℤ → ℤ)) (fuzzable : Bool) (name : Option Text)
    → Globals
    → Option Globals
s_size block_name offset length endian output_format inclusive signed math fuzzable name =
    let inner = bit_field (length * 8) none endian output_format signed false in
    pushed (codes "Size") name
      (λ n. leaf (attributes n (static_value none_value) fuzzable []) (
        size (record {
          block_name = block_name;
          offset = offset;
          length = length;
          endian = endian;
          format = output_format;
          inclusive = inclusive;
          signed = signed;
          math = math_of math;
          bit_field = inner;
        })))
      (number inner)

-- `s_mirror`.
unfoldable pub s_mirror : (primitive_name name : Option Text) → Globals → Option Globals
s_mirror primitive_name name =
    pushed (codes "Mirror") name
      (λ n. leaf (attributes n (static_value none_value) true []) (mirror primitive_name)) nothing
