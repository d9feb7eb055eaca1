-- ===== src/Primitives/Strings.antt =====
-- boofuzz/primitives/string.py: the mutations of String. The indices that its constructor draws for
-- each of the long lengths are a parameter.
pub mod Library
pub mod Repeats
pub mod Count
use boofuzz.Base.{
  ℕ, zero, suc, ◌+◌, ◌-◌, ◌*◌, ◌/◌, Bool, true, false, List, [], ◌∷◌, ◌++◌, Option, none, some, ltb,
  leb, if◌then◌else◌, length, map, take, drop, times, replicate,
}
use boofuzz.Base.Int.{ℤ, pos, pos_part, ◌+ℤ◌}
use boofuzz.Base.Text.{Text, text_eq, text_mem}
use boofuzz.Primitives.Strings.Library.{
  fuzz_library, long_string_seeds, long_string_lengths, long_string_deltas,
  extra_long_string_lengths, variable_mutation_multipliers,
}

-- `max_len is None or size <= max_len`.
abbrev pub size_allowed : Option ℕ → ℕ → Bool
size_allowed none size = true
size_allowed (some n) size = leb size n

-- `sequence * math.ceil(size / len(sequence))`, for a sequence that is not empty.
unfoldable pub repeat_to : ℕ → Text → Text
repeat_to size sequence = times ((size + length sequence - 1) / length sequence) sequence

-- The sizes of the first inner loop: `itertools.product` of the lengths and the deltas.
unfoldable pub long_sizes : List ℕ → List ℤ → List ℕ
long_sizes [] deltas = []
long_sizes (n ∷ ns) deltas = map (λ delta. pos_part (pos n +ℤ delta)) deltas ++ long_sizes ns deltas

-- A loop over sizes that breaks at the first one above the maximal length.
unfoldable pub while_allowed : Option ℕ → (ℕ → List Text) → List ℕ → List Text
while_allowed max_len yielded [] = []
while_allowed max_len yielded (size ∷ sizes) =
    let rest = while_allowed max_len yielded sizes in
    if size_allowed max_len size then yielded size ++ rest else []

-- `data`, whole, at the maximal length.
abbrev pub at_max_len : Option ℕ → Text → List Text
at_max_len none sequence = []
at_max_len (some n) sequence = repeat_to n sequence ∷ []

abbrev pub cut_to : Text → ℕ → List Text
cut_to sequence size = take size (repeat_to size sequence) ∷ []

unfoldable pub long_strings_of : Option ℕ → Text → List Text
long_strings_of max_len sequence =
    while_allowed max_len (cut_to sequence) (long_sizes long_string_lengths long_string_deltas)
    ++ (while_allowed max_len (cut_to sequence) extra_long_string_lengths
        ++ at_max_len max_len sequence)

unfoldable pub for_sequences : Option ℕ → List Text → List Text
for_sequences max_len [] = []
for_sequences max_len (sequence ∷ sequences) =
    long_strings_of max_len sequence ++ for_sequences max_len sequences

-- A text of "D"s, with a terminator in place of the character at `loc`.
abbrev pub with_terminator : ℕ → ℕ → Text
with_terminator size loc =
    take loc (replicate size b'D') ++ (0 ∷ drop (loc + 1) (replicate size b'D'))

module _ (random_indices : ℕ → List ℕ) (max_len : Option ℕ) where
  unfoldable pub yield_long_strings : List Text → List Text
  yield_long_strings sequences =
      for_sequences max_len sequences
      ++ while_allowed max_len (λ size. map (with_terminator size) (random_indices size))
          long_string_lengths

  -- Does the loop of `_yield_variable_mutations` break after this value?
  abbrev pub reaches_max_len : Text → Bool
  reaches_max_len v = elim max_len [ none ↦ false | some n ↦ leb n (length v) ]

  unfoldable pub variable_mutations : Text → List ℕ → List Text
  variable_mutations default_value [] = []
  variable_mutations default_value (k ∷ ks) =
      let v = times k default_value in
      let rest = variable_mutations default_value ks in
      if text_mem v fuzz_library then rest else if reaches_max_len v then v ∷ [] else v ∷ rest

  abbrev pub yield_variable_mutations : Text → List Text
  yield_variable_mutations default_value =
      variable_mutations default_value variable_mutation_multipliers

  unfoldable pub adjust_mutation_for_size : Text → Text
  adjust_mutation_for_size fuzz_value = elim max_len [
    | none ↦ fuzz_value
    | some n ↦ if ltb n (length fuzz_value) then take n fuzz_value else fuzz_value
  ]

  -- `last_val == current_val`, where `last_val` may be None.
  abbrev pub equals_last : Option Text → Text → Bool
  equals_last none v = false
  equals_last (some last_val) v = text_eq last_val v

  -- The loop of `mutations`, which skips a value equal to the one before.
  unfoldable pub adjust_all : Option Text → List Text → List Text
  adjust_all last_val [] = []
  adjust_all last_val (v ∷ vs) =
      let current_val = adjust_mutation_for_size v in
      let rest = adjust_all (some current_val) vs in
      if equals_last last_val current_val then rest else current_val ∷ rest

  unfoldable pub mutations : Text → List Text
  mutations default_value = adjust_all none (
      fuzz_library
      ++ (yield_variable_mutations default_value ++ yield_long_strings long_string_seeds))

  -- The static number is that for the default value "".
  unfoldable pub num_mutations : Text → ℕ
  num_mutations default_value =
      length (mutations []) + length (yield_variable_mutations default_value)
