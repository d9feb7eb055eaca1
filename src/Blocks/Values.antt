-- ===== src/Blocks/Values.antt =====
-- The values of elements and what the `encode` methods make of them: boofuzz/fuzzable.py,
-- boofuzz/primitives and boofuzz/blocks. `none` is an exception.
use boofuzz.Base.{
  ℕ, zero, suc, ◌-◌, ◌/◌, ◌%◌, Bool, true, false, not, ◌&&◌, ◌||◌, List, [], ◌∷◌, ◌++◌, Option,
  none, some, ltb, ◌==◌, if◌then◌else◌, length, take, times, ◌>>=◌,
}
use boofuzz.Base.Int.{pos, negsuc, ltb_ℤ}
use boofuzz.Base.Text.{Text, text_eq}
use boofuzz.Primitives.BitField.{BitField, encode}
use boofuzz.Blocks.Names.{lookup_name}
use boofuzz.Blocks.Element.{
  Value, none_value, bytes, text, int, DefaultValue, static_value, reference, Comparison, BlockSpec,
  Element, Elements, nil, cons,
}

-- The value of a `Mutation`: a plain value, or a callable on the original value.
pub data MutationValue : Type 0 where
  plain : Value → MutationValue
  callable : (Value → Value) → MutationValue

-- MutationContext: the mutations by qualified name, and the session variables of the protocol
-- session if there is one.
pub record MutationContext : Type 0 where
  pub mutations : List (Text × MutationValue)
  pub session_variables : Option (List (Text × Value))

-- `str.encode(encoding, "replace")`, which the standard library gives.
abbrev pub Codec : Type 0
Codec = (encoding : Text) → Text → List ℕ

abbrev pub utf8 : Text
utf8 = b'u' ∷ b't' ∷ b'f' ∷ b'-' ∷ b'8' ∷ []

-- helpers.str_to_bytes.
unfoldable pub str_to_bytes : Codec → Value → Option (List ℕ)
str_to_bytes codec (bytes b) = some b
str_to_bytes codec (text t) = some (codec utf8 t)
str_to_bytes codec _ = none

-- A result that is concatenated to bytes: anything else is a TypeError there. (A str that `encode`
-- returns unchanged gets as far as the concatenation, and a mirror or a repeat of its element turns
-- it into bytes first; elements of the classes that return one are modelled for values of bytes.)
abbrev pub as_rendered : Value → Option (List ℕ)
as_rendered (bytes b) = some b
as_rendered _ = none

-- `if value is None: value = b""`.
abbrev pub none_as_empty : Value → Value
none_as_empty none_value = bytes []
none_as_empty v = v

-- An undersized value is padded up to the static size.
abbrev pub pad_to : Option ℕ → List ℕ → List ℕ → List ℕ
pad_to none padding b = b
pad_to (some n) padding b = if ltb (length b) n then b ++ times (n - length b) padding else b

-- String.encode.
abbrev pub encode_string : Codec → Option ℕ → List ℕ → Text → Value → Option (List ℕ)
encode_string codec static_size padding encoding (text t) =
    some (pad_to static_size padding (codec encoding t))
encode_string codec static_size padding encoding _ = none

-- BitField.encode on an int. (The subclasses Byte, Word, DWord and QWord unpack bytes first.)
abbrev pub encode_number : BitField → Value → Option (List ℕ)
encode_number f (int n) = encode f n
encode_number f _ = none

-- The order of bytes and of texts in Python: lexicographic.
unfoldable pub bytes_lt : List ℕ → List ℕ → Bool
bytes_lt [] [] = false
bytes_lt [] (y ∷ ys) = true
bytes_lt (x ∷ xs) [] = false
bytes_lt (x ∷ xs) (y ∷ ys) = ltb x y || (x == y && bytes_lt xs ys)

-- `==` on values of these types.
unfoldable pub value_eq : Value → Value → Bool
unfolding text_eq
value_eq none_value none_value = true
value_eq (bytes a) (bytes b) = text_eq a b
value_eq (text a) (text b) = text_eq a b
value_eq (int (pos a)) (int (pos b)) = a == b
value_eq (int (negsuc a)) (int (negsuc b)) = a == b
value_eq _ _ = false

unfoldable pub value_mem : Value → List Value → Bool
unfolding value_eq
value_mem v [] = false
value_mem v (w ∷ ws) = value_eq v w || value_mem v ws

-- `a < b`, which is a TypeError on values of two types and on None.
abbrev pub value_lt : Value → Value → Option Bool
value_lt (bytes a) (bytes b) = some (bytes_lt a b)
value_lt (text a) (text b) = some (bytes_lt a b)
value_lt (int a) (int b) = some (ltb_ℤ a b)
value_lt _ _ = none

abbrev pub negated : Option Bool → Option Bool
negated none = none
negated (some b) = some (not b)

abbrev pub eq_allows : BlockSpec → Value → Bool
eq_allows spec v = eq_test spec.dep_values
  where
    eq_test : List Value → Bool
    eq_test [] = value_eq v spec.dep_value
    eq_test (w ∷ ws) = value_mem v (w ∷ ws)

-- Does the dependency, with this value of the element it names, allow the block to render?
unfoldable pub dependency_allows : Comparison → BlockSpec → Value → Option Bool
unfolding value_eq value_mem bytes_lt
dependency_allows Comparison.eq spec v = some (eq_allows spec v)
dependency_allows Comparison.ne spec v =
    some (not (value_mem v spec.dep_values) && not (value_eq v spec.dep_value))
dependency_allows Comparison.gt spec v = value_lt v spec.dep_value
dependency_allows Comparison.ge spec v = negated (value_lt spec.dep_value v)
dependency_allows Comparison.lt spec v = value_lt spec.dep_value v
dependency_allows Comparison.le spec v = negated (value_lt v spec.dep_value)

-- `rendered += item.render(...)` over a stack, for the rendering of an item.
unfoldable pub render_all : (Element → Option (List ℕ)) → Elements → Option (List ℕ)
render_all render nil = some []
render_all render (cons e es) = do
  first ← render e
  rest ← render_all render es
  some (first ++ rest)

-- Aligned: pad the contents to a multiple of the modulus with the repeated pattern. A modulus of 0
-- and an empty pattern are a ZeroDivisionError.
unfoldable pub align : ℕ → List ℕ → List ℕ → Option (List ℕ)
align zero pattern child_data = none
align (suc m) [] child_data = none
align (suc m) (p ∷ ps) child_data =
    let padding_length = suc m - length child_data % suc m in
    let width = suc (length ps) in
    some (
      child_data
      ++ (times (padding_length / width) (p ∷ ps) ++ take (padding_length % width) (p ∷ ps)))

-- `value * data` on bytes: a negative number gives none of them.
abbrev pub repeat_bytes : Value → List ℕ → Option (List ℕ)
repeat_bytes (int (pos n)) b = some (times n b)
repeat_bytes (int (negsuc n)) b = some []
repeat_bytes _ b = none

abbrev pub apply_encoder : Option (List ℕ → List ℕ) → List ℕ → List ℕ
apply_encoder none child_data = child_data
apply_encoder (some encoder) child_data = encoder child_data

-- The value in force, from the original value if that is needed.
abbrev pub mutated : MutationValue → Option Value → Option Value
mutated (plain v) original = some v
mutated (callable g) original = original >>= λ v. some (g v)

abbrev pub default_of : Option (List (Text × Value)) → DefaultValue → Option Value
default_of variables (static_value v) = some v
default_of none (reference name d) = some d
default_of (some variables) (reference name d) = lookup_name name variables
