-- ===== src/Static/Primitives.antt =====
-- boofuzz/__init__.py: the functions that push a primitive, with their aliases.
use boofuzz.Base.{ℕ, Bool, true, false, List, [], ◌∷◌, Option, none, some, ◌>>=◌, map}
use boofuzz.Base.Int.{ℤ}
use boofuzz.Base.Text.{Text, codes}
use boofuzz.Primitives.BitField.{Endian, big, OutputFormat, bit_field}
use boofuzz.Primitives.Bytes
use boofuzz.Primitives.Leaves.{delim_library, group_init, random_data_init, from_file_library}
use boofuzz.Primitives.Leaves.Sources.{number, binary, string, listed, random, nothing}
use boofuzz.Blocks.Element.{
  Value, bytes, text, int, static_value, Leaf, unchanged, or_empty, as_bytes, leaf,
}
use boofuzz.Blocks.Values.{Codec, str_to_bytes}
use boofuzz.Static.{Globals, pushed, attributes}

-- `s_static`, also `s_dunno`, `s_raw` and `s_unknown`. A Static is not fuzzable.
unfoldable pub s_static : (value : Value) (name : Option Text) → Globals → Option Globals
s_static value name =
    pushed (codes "Static") name (λ n. leaf (attributes n (static_value value) false []) as_bytes)
      nothing

-- `s_simple`.
unfoldable pub s_simple :
    (value : Value) (name : Option Text) (fuzz_values : List Value) (fuzzable : Bool)
    → Globals
    → Option Globals
s_simple value name fuzz_values fuzzable =
    pushed (codes "Simple") name
      (λ n. leaf (attributes n (static_value value) fuzzable fuzz_values) unchanged) nothing

-- `s_delim`, for a text.
unfoldable pub s_delim :
    (value : Text) (fuzzable : Bool) (name : Option Text) → Globals → Option Globals
s_delim value fuzzable name =
    pushed (codes "Delim") name
      (λ n. leaf (attributes n (static_value (text value)) fuzzable []) as_bytes)
      (listed (map (λ t. text t) (delim_library value)))

-- `s_group`, with the codec of ASCII.
unfoldable pub s_group :
    (encode : Text → Option (List ℕ)) (name : Option Text) (values : List Value)
    → (default_value : Option Value) → Globals
    → Option Globals
s_group encode name values default_value g = do
  set_up ← group_init encode values default_value
  pushed (codes "Group") name
      (λ n. leaf (attributes n (static_value (bytes set_up.0)) true []) or_empty)
      (listed (map (λ b. bytes b) set_up.1)) g

-- `s_random`, for lengths of which the first is not above the second; no step is 0.
unfoldable pub s_random :
    (codec : Codec) (value : Value) (min_length max_length num_mutations : ℕ) (fuzzable : Bool)
    → (step : ℕ) (name : Option Text) → Globals
    → Option Globals
s_random codec value min_length max_length num_mutations fuzzable step name g = do
  default_value ← str_to_bytes codec value
  pushed (codes "RandomData") name
      (λ n. leaf (attributes n (static_value (bytes default_value)) fuzzable []) unchanged)
      (random (random_data_init min_length max_length num_mutations step)) g

-- A size: a number, or none given; the old interface writes -1 for the latter.
pub data Limit : Type 0 where
  absent minus_one : Limit
  limit : ℕ → Limit

abbrev pub limit_of : Limit → Option ℕ
limit_of absent = none
limit_of minus_one = none
limit_of (limit n) = some n

-- A static size is the maximal length.
abbrev pub max_len_of : (size max_len : Option ℕ) → Option ℕ
max_len_of none max_len = max_len
max_len_of (some n) max_len = some n

-- `s_string`, for a padding of bytes; the indices are those that the constructor draws.
unfoldable pub s_string :
    (random_indices : ℕ → List ℕ) (value : Text) (size : Limit) (padding : List ℕ) (encoding : Text)
    → (fuzzable : Bool) (max_len : Limit) (name : Option Text) → Globals
    → Option Globals
s_string random_indices value size padding encoding fuzzable max_len name =
    pushed (codes "String") name
      (λ n.
        leaf (attributes n (static_value (text value)) fuzzable [])
          (Leaf.string (limit_of size) padding encoding))
      (string random_indices (max_len_of (limit_of size) (limit_of max_len)))

-- `s_cstring`.
unfoldable pub s_cstring : (random_indices : ℕ → List ℕ) → Text → Globals → Option Globals
s_cstring random_indices x g =
    s_string random_indices x absent (0 ∷ []) (codes "ascii") true absent none g
    >>= λ pushed_string. s_static (text (0 ∷ [])) none pushed_string

-- `s_from_file`, for the lines of the files that the pattern names.
unfoldable pub s_from_file :
    (unordered : List (List ℕ) → List (List ℕ)) (lines : List (List ℕ)) (value : List ℕ)
    → (fuzzable : Bool) (max_len : ℕ) (name : Option Text) → Globals
    → Option Globals
s_from_file unordered lines value fuzzable max_len name =
    pushed (codes "FromFile") name
      (λ n. leaf (attributes n (static_value (bytes value)) fuzzable []) or_empty)
      (listed (map (λ b. bytes b) (from_file_library unordered lines max_len)))

-- `s_bytes`.
unfoldable pub s_bytes :
    (value : List ℕ) (size : Option ℕ) (padding : List ℕ) (fuzzable : Bool) (max_len : Option ℕ)
    → (name : Option Text) → Globals
    → Option Globals
s_bytes value size padding fuzzable max_len name =
    pushed (codes "Bytes") name
      (λ n. leaf (attributes n (static_value (bytes value)) fuzzable []) or_empty)
      (binary (Bytes.init size padding max_len))

-- The constructor call of a bit field or one of its subclasses.
abbrev pub number_of_class :
    (class_name : Text) (width : ℕ) (value : ℤ) (endian : Endian) (output_format : OutputFormat)
    → (signed full_range fuzzable : Bool) (name : Option Text) (fuzz_values : List Value) → Globals
    → Option Globals
number_of_class class_name width value endian output_format signed full_range fuzzable name
      fuzz_values =
    let field = bit_field width none endian output_format signed full_range in
    pushed class_name name
      (λ n. leaf (attributes n (static_value (int value)) fuzzable fuzz_values) (Leaf.number field))
      (number field)

abbrev pub NumberCall : Type 0
NumberCall =
    (value : ℤ) (endian : Endian) (output_format : OutputFormat) (signed full_range fuzzable : Bool)
    → (name : Option Text) (fuzz_values : List Value) → Globals
    → Option Globals

-- `s_bit_field`, also `s_bit` and `s_bits`.
unfoldable pub s_bit_field : (width : ℕ) → NumberCall
s_bit_field width = number_of_class (codes "BitField") width

-- `s_byte`, also `s_char`.
unfoldable pub s_byte : NumberCall
s_byte = number_of_class (codes "Byte") 8

-- `s_word`, also `s_short`.
unfoldable pub s_word : NumberCall
s_word = number_of_class (codes "Word") 16

-- `s_dword`, also `s_long` and `s_int`.
unfoldable pub s_dword : NumberCall
s_dword = number_of_class (codes "DWord") 32

-- `s_qword`, also `s_double`.
unfoldable pub s_qword : NumberCall
s_qword = number_of_class (codes "QWord") 64

abbrev pub AliasCall : Type 0
AliasCall =
    (value : ℤ) (output_format : OutputFormat) (signed full_range fuzzable : Bool)
    → (name : Option Text) (fuzz_values : List Value) → Globals
    → Option Globals

-- `s_intelhalfword`, `s_intelword` and `s_bigword`, where no endian is given: the texts that they
-- pass are not LITTLE_ENDIAN, so that the number is written with its most significant byte first.
abbrev pub s_intelhalfword : AliasCall
s_intelhalfword value output_format = s_word value big output_format

abbrev pub s_intelword : AliasCall
s_intelword value output_format = s_dword value big output_format

abbrev pub s_bigword : AliasCall
s_bigword value output_format = s_dword value big output_format
