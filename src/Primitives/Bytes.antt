-- ===== src/Primitives/Bytes.antt =====
-- boofuzz/primitives/bytes.py: the mutations of Bytes. A callable that replaces a window is the one
-- with the position and the bytes that the loop has when it yields it.
pub mod Library
pub mod Count
pub mod Fits
use boofuzz.Base.{
  ℕ, ◌+◌, ◌-◌, ◌*◌, List, [], ◌∷◌, ◌++◌, Option, none, some, ltb, if◌then◌else◌, length, map, take,
  drop, times, range_from,
}
use boofuzz.Primitives.Bytes.Library.{
  fuzz_library, magic_debug_values, fuzz_strings_1byte, fuzz_strings_2byte, fuzz_strings_4byte,
  mutators_of_default_value,
}

-- What the constructor keeps of its arguments.
pub record Bytes : Type 0 where
  pub size : Option ℕ
  pub max_len : Option ℕ
  pub padding : List ℕ

-- `__init__`: a static size is the maximal length.
unfoldable pub init : (size : Option ℕ) (padding : List ℕ) (max_len : Option ℕ) → Bytes
init none padding max_len = record { size = none; max_len = max_len; padding = padding }
init (some n) padding max_len = record { size = some n; max_len = some n; padding = padding }

-- A fuzz case: a value, or a callable on the original value.
pub data FuzzCase : Type 0 where
  fixed : List ℕ → FuzzCase
  computed : (List ℕ → List ℕ) → FuzzCase

-- `value[:n]`.
abbrev pub upto : Option ℕ → List ℕ → List ℕ
upto none v = v
upto (some n) v = take n v

abbrev pub at_most : Option ℕ → List ℕ → List ℕ
at_most none v = v
at_most (some n) v = if ltb n (length v) then take n v else v

unfoldable pub adjust_mutation_for_size : Bytes → List ℕ → List ℕ
adjust_mutation_for_size p fuzz_value = elim p.size [
  | some n ↦
      if ltb n (length fuzz_value)
      then upto p.max_len fuzz_value
      else fuzz_value ++ times (n - length fuzz_value) p.padding
  | none ↦ at_most p.max_len fuzz_value
]

-- The window at `i` of `less + 1` bytes is replaced, where the value has one.
unfoldable pub replaced : (less i : ℕ) → List ℕ → List ℕ → List ℕ
replaced less i fuzz_bytes v =
    if ltb (i + less) (length v) then take i v ++ (fuzz_bytes ++ drop (i + (less + 1)) v) else v

-- One of the three nested loops, over the positions that it is given.
unfoldable pub replacements : (less : ℕ) → List (List ℕ) → List ℕ → List FuzzCase
replacements less strings [] = []
replacements less strings (i ∷ is) =
    map (λ fuzz_bytes. computed (replaced less i fuzz_bytes)) strings
    ++ replacements less strings is

unfoldable pub iterate_fuzz_cases : List ℕ → List FuzzCase
iterate_fuzz_cases default_value =
    map fixed fuzz_library
    ++ (map (λ n. computed (times n)) mutators_of_default_value
        ++ (map fixed magic_debug_values
            ++ (replacements 0 fuzz_strings_1byte (range_from 0 (length default_value))
                ++ (replacements 1 fuzz_strings_2byte (range_from 0 (length default_value - 1))
                    ++ replacements 3 fuzz_strings_4byte
                        (range_from 0 (length default_value - 3))))))

abbrev pub adjusted : Bytes → FuzzCase → FuzzCase
adjusted p (fixed v) = fixed (adjust_mutation_for_size p v)
adjusted p (computed f) = computed (λ v. adjust_mutation_for_size p (f v))

unfoldable pub mutations : Bytes → List ℕ → List FuzzCase
mutations p default_value = map (adjusted p) (iterate_fuzz_cases default_value)

unfoldable pub num_mutations : List ℕ → ℕ
num_mutations default_value =
    length fuzz_library
    + (length mutators_of_default_value
        + (length magic_debug_values
            + (length fuzz_strings_1byte * length default_value
                + (length fuzz_strings_2byte * (length default_value - 1)
                    + length fuzz_strings_4byte * (length default_value - 3)))))
