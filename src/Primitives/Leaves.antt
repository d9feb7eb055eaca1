-- ===== src/Primitives/Leaves.antt =====
-- What the leaf classes yield on mutation: boofuzz/primitives/delim.py, group.py, random_data.py,
-- from_file.py and base_primitive.py, boofuzz/blocks/repeat.py and checksum.py. `none` is an exception.
pub mod Group
pub mod Ranges
pub mod Sources
use boofuzz.Base.{
  ℕ, zero, suc, ◌+◌, ◌-◌, ◌*◌, ◌/◌, Bool, true, false, List, [], ◌∷◌, ◌++◌, Option, none, some, ltb,
  ◌==◌, if◌then◌else◌, length, map, times, replicate, ◌>>=◌,
}
use boofuzz.Base.Text.{Text, text_eq, codes}
use boofuzz.Blocks.Element.{Value, bytes, text}
use boofuzz.Blocks.Values.{value_eq}

-- What Delim always appends after the repetitions of its default value.
unfoldable pub delimiters : List Text
delimiters =
    (codes " ")
    ∷ (codes "\t")
    ∷ (times 100 (codes "\t "))
    ∷ (times 100 (codes "\t\r\n"))
    ∷ (codes "!")
    ∷ (codes "@")
    ∷ (codes "#")
    ∷ (codes "$")
    ∷ (codes "%")
    ∷ (codes "^")
    ∷ (codes "&")
    ∷ (codes "*")
    ∷ (codes "(")
    ∷ (codes ")")
    ∷ (codes "{")
    ∷ (codes "}")
    ∷ (codes "[")
    ∷ (codes "]")
    ∷ (codes "-")
    ∷ (codes "_")
    ∷ (codes "+")
    ∷ (codes "=")
    ∷ (codes ":")
    ∷ (times 100 (codes ": "))
    ∷ (times 100 (codes ":7"))
    ∷ (codes ";")
    ∷ (codes "'")
    ∷ (codes "\"")
    ∷ (codes "/")
    ∷ (codes "\\")
    ∷ (codes "?")
    ∷ (codes "<")
    ∷ (codes ">")
    ∷ (codes ".")
    ∷ (codes ",")
    ∷ (codes "\r")
    ∷ (codes "\n")
    ∷ (times 64 (codes "\r\n"))
    ∷ (times 128 (codes "\r\n"))
    ∷ (times 512 (codes "\r\n"))
    ∷ []

-- The library of Delim for a default text.
unfoldable pub delim_library : Text → List Text
unfolding text_eq
delim_library default_value =
    map (λ n. times n default_value) (2 ∷ 5 ∷ 10 ∷ 25 ∷ 100 ∷ 500 ∷ 1000 ∷ [])
    ++ ([]
        ∷ ((if text_eq default_value (codes " ")
              then codes "\t" ∷ times 2 (codes "\t") ∷ times 100 (codes "\t") ∷ []
              else [])
            ++ delimiters))

-- The library of Checksum for its length.
unfoldable pub checksum_library : ℕ → List (List ℕ)
checksum_library n =
    replicate n 0
    ∷ replicate n 0x11
    ∷ replicate n 0xEE
    ∷ replicate n 0xFF
    ∷ (replicate (n - 1) 0xFF ++ (0xFE ∷ []))
    ∷ (replicate (n - 1) 0 ++ (1 ∷ []))
    ∷ []

-- `value if isinstance(value, bytes) else value.encode(encoding)`.
abbrev pub as_bytes_value : (Text → Option (List ℕ)) → Value → Option (List ℕ)
as_bytes_value encode (bytes b) = some b
as_bytes_value encode (text t) = encode t
as_bytes_value encode _ = none

unfoldable pub encode_values : (Text → Option (List ℕ)) → List Value → Option (List (List ℕ))
encode_values encode [] = some []
encode_values encode (v ∷ vs) = do
  b ← as_bytes_value encode v
  bs ← encode_values encode vs
  some (b ∷ bs)

-- `if value in values: values.remove(value)`.
unfoldable pub remove : List ℕ → List (List ℕ) → List (List ℕ)
unfolding text_eq
remove value [] = []
remove value (b ∷ bs) = let rest = remove value bs in if text_eq b value then bs else b ∷ rest

abbrev pub group_default : (Text → Option (List ℕ)) → Option Value → List (List ℕ) → Option (List ℕ)
group_default encode d [] = none
group_default encode none (first ∷ _) = some first
group_default encode (some v) (first ∷ _) = as_bytes_value encode v

abbrev pub without_default :
    (Text → Option (List ℕ)) → Option Value → List (List ℕ) → Option (List ℕ × List (List ℕ))
without_default encode default_value encoded = do
  chosen ← group_default encode default_value encoded
  some (chosen, remove chosen encoded)

-- `Group.__init__`: the default value and the values that are mutated to.
unfoldable pub group_init :
    (Text → Option (List ℕ)) → List Value → Option Value → Option (List ℕ × List (List ℕ))
group_init encode values default_value = do
  encoded ← encode_values encode values
  without_default encode default_value encoded

-- `range(start, stop, step)` of numbers, for a step that is not 0: `n` of them are left.
unfoldable pub steps_from : (start step n : ℕ) → List ℕ
steps_from start step zero = []
steps_from start step (suc n) = start ∷ steps_from (start + step) step n

-- The library of Repeat: `list(range(min_reps, max_reps + 1, step))`; a step of 0 is a ValueError.
unfoldable pub repeat_library : (min_reps max_reps step : ℕ) → Option (List ℕ)
repeat_library min_reps max_reps zero = none
repeat_library min_reps max_reps (suc k) =
    some (steps_from min_reps (suc k) ((max_reps + 1 - min_reps + k) / suc k))

-- The attributes of RandomData, with `min_length <= max_length`; a step of None counts as 0.
pub record RandomData : Type 0 where
  pub min_length : ℕ
  pub max_length : ℕ
  pub max_mutations : ℕ
  pub step : ℕ

unfoldable pub random_data_init : (min_length max_length max_mutations step : ℕ) → RandomData
random_data_init min_length max_length max_mutations zero = record {
  min_length = min_length;
  max_length = max_length;
  max_mutations = max_mutations;
  step = 0;
}
random_data_init min_length max_length max_mutations (suc k) = record {
  min_length = min_length;
  max_length = max_length;
  max_mutations = (max_length - min_length) / suc k + 1;
  step = suc k;
}

-- `random.Random`: a generator's state, and `randint` with both of its bounds.
module _ {State : Type 0} (randint : State → ℕ → ℕ → ℕ × State) where
  unfoldable pub random_bytes : ℕ → State → List ℕ × State
  random_bytes zero s = ([], s)
  random_bytes (suc n) s =
      let drawn = randint s 0 255 in let rest = random_bytes n drawn.1 in (drawn.0 ∷ rest.0, rest.1)

  abbrev pub length_at : RandomData → ℕ → State → ℕ × State
  length_at r i s =
      if r.step == 0 then randint s r.min_length r.max_length else (r.min_length + i * r.step, s)

  -- The rounds of `RandomData.mutations` from `i`, `n` of them.
  unfoldable pub random_mutations : RandomData → (i n : ℕ) → State → List (List ℕ)
  random_mutations r i zero s = []
  random_mutations r i (suc n) s =
      let size = length_at r i s in
      let drawn = random_bytes size.0 size.1 in drawn.0 ∷ random_mutations r (i + 1) n drawn.1

-- The library of FromFile, from the lines of its files; `unordered` lists a set.
module _ (unordered : List (List ℕ) → List (List ℕ)) where
  unfoldable pub nonempty : List (List ℕ) → List (List ℕ)
  nonempty [] = []
  nonempty ([] ∷ lines) = nonempty lines
  nonempty ((c ∷ cs) ∷ lines) = (c ∷ cs) ∷ nonempty lines

  unfoldable pub not_longer : ℕ → List (List ℕ) → List (List ℕ)
  not_longer max_len [] = []
  not_longer max_len (s ∷ ss) =
      let rest = not_longer max_len ss in if ltb max_len (length s) then rest else s ∷ rest

  abbrev pub any_longer : ℕ → List (List ℕ) → Bool
  any_longer max_len [] = false
  any_longer max_len (s ∷ ss) = if ltb max_len (length s) then true else any_longer max_len ss

  unfoldable pub from_file_library : List (List ℕ) → (max_len : ℕ) → List (List ℕ)
  from_file_library lines zero = nonempty lines
  from_file_library lines (suc n) =
      if any_longer (suc n) (nonempty lines)
      then unordered (not_longer (suc n) (nonempty lines))
      else nonempty lines
