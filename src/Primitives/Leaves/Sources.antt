-- ===== src/Primitives/Leaves/Sources.antt =====
-- The leaf classes together, as the sources of mutations that the requests' count rests on.
use boofuzz.Base.{
  ℕ, zero, suc, ◌+◌, ◌≡◌, refl, ap, sym, ◌∙◌, true, List, [], Option, none, length, map, All,
  length-map, subst, arith,
}
use boofuzz.Base.Text.{Text}
use boofuzz.Primitives.BitField.{BitField, iterate_fuzz_lib}
use boofuzz.Primitives.Bytes
use boofuzz.Primitives.Bytes.{FuzzCase, fixed, computed}
use boofuzz.Primitives.Strings
use boofuzz.Primitives.Leaves.{RandomData, random_mutations}
use boofuzz.Blocks.Element.{
  Value, bytes, text, int, DefaultValue, static_value, reference, Info, Leaf, Element,
}
use boofuzz.Blocks.Values.{plain, callable}
use boofuzz.Blocks.Render.{Message}
use boofuzz.Blocks.Mutations.{Yielded, value, is_fuzzable, get_mutations, get_num_mutations}
use boofuzz.Blocks.Mutations.Count.{IsGrouped, size_of, get_num_mutations-get_mutations}

-- What a leaf is mutated by: `number` is BitField and its subclasses, and Size by its inner field;
-- `listed` a library that the constructor fills (BasePrimitive, Group, Repeat); `nothing` is that of
-- Fuzzable (Static, Simple) and Mirror.
pub data Source : Type 0 where
  number : BitField → Source
  binary : Bytes.Bytes → Source
  string : (random_indices : ℕ → List ℕ) (max_len : Option ℕ) → Source
  listed : List Value → Source
  random : RandomData → Source
  nothing : Source

abbrev pub bytes_of : Value → List ℕ
bytes_of (bytes b) = b
bytes_of _ = []

abbrev pub text_of : Value → Text
text_of (text t) = t
text_of _ = []

-- The default value of Bytes is bytes.
abbrev pub on_bytes : (List ℕ → List ℕ) → Value → Value
on_bytes f (bytes b) = bytes (f b)
on_bytes f v = v

-- `original_value()`, with no test case.
abbrev pub plain_default : DefaultValue → Value
plain_default (static_value v) = v
plain_default (reference name d) = d

abbrev pub yielded_case : FuzzCase → Yielded
yielded_case (fixed v) = value (plain (bytes v))
yielded_case (computed f) = value (callable (on_bytes f))

module _ {State : Type 0} (randint : State → ℕ → ℕ → ℕ × State) (seeded : State) where
  -- `mutations` of the class. RandomData asks `get_num_mutations` how many it shall yield.
  unfoldable pub library : Info → Source → List Yielded
  library i (number f) = map (λ n. value (plain (int n))) (iterate_fuzz_lib f)
  library i (binary p) =
      map yielded_case (Bytes.mutations p (bytes_of (plain_default i.default_value)))
  library i (string random_indices max_len) =
      map (λ t. value (plain (text t)))
        (Strings.mutations random_indices max_len (text_of (plain_default i.default_value)))
  library i (listed vs) = map (λ v. value (plain v)) vs
  library i (random r) =
      map (λ b. value (plain (bytes b)))
        (random_mutations randint r 0 (r.max_mutations + length i.fuzz_values) seeded)
  library i nothing = []

  -- `num_mutations` of the class.
  unfoldable pub library_size : Info → Source → ℕ
  library_size i (number f) = length (iterate_fuzz_lib f)
  library_size i (binary p) = Bytes.num_mutations (bytes_of (plain_default i.default_value))
  library_size i (string random_indices max_len) =
      Strings.num_mutations random_indices max_len (text_of (plain_default i.default_value))
  library_size i (listed vs) = length vs
  library_size i (random r) = r.max_mutations
  library_size i nothing = 0

  -- A String has no size or maximal length, and RandomData no further values.
  abbrev pub IsCounted : Info → Source → Type 0
  IsCounted i (string random_indices max_len) = max_len ≡ none
  IsCounted i (random r) = i.fuzz_values ≡ []
  IsCounted i _ = Unit

  length-random_mutations :
      (r : RandomData) (i n : ℕ) (s : State) → length (random_mutations randint r i n s) ≡ n
  unfolding random_mutations
  length-random_mutations r i zero s = refl
  length-random_mutations r i (suc n) s = ap suc (length-random_mutations r (i + 1) n _)

  pub library_size-library :
      (i : Info) (s : Source) → IsCounted i s → library_size i s ≡ length (library i s)
  unfolding library library_size
  library_size-library i (number f) h = sym (length-map (iterate_fuzz_lib f) _)
  library_size-library i (binary p) h = sym (
      length-map (Bytes.mutations p (bytes_of (plain_default i.default_value))) yielded_case
      ∙ Bytes.Count.length-mutations p (bytes_of (plain_default i.default_value)))
  library_size-library i (string random_indices max_len) h =
      subst
        (λ o.
          Strings.num_mutations random_indices o (text_of (plain_default i.default_value))
          ≡ length (library i (string random_indices o)))
        (sym h)
        (sym (
          length-map
            (Strings.mutations random_indices none (text_of (plain_default i.default_value))) _
          ∙ Strings.Count.length-mutations random_indices
              (text_of (plain_default i.default_value))))
  library_size-library i (listed vs) h = sym (length-map vs _)
  library_size-library i (random r) h = sym (
      length-map (random_mutations randint r 0 (r.max_mutations + length i.fuzz_values) seeded) _
      ∙ (length-random_mutations r 0 _ seeded
          ∙ (ap (λ (vs : List Value). r.max_mutations + length vs) h ∙ omega arith)))
  library_size-library i nothing h = refl

  -- With the leaves of this library, of which a String has no limit and RandomData no further
  -- values, and groups that are fuzzable: a fuzzable element of a request announces exactly as many
  -- mutations as it yields.
  pub get_num_mutations-sources :
      (m : Message) (source_of : Info → Leaf → Source)
      → ((i : Info) (k : Leaf) → IsCounted i (source_of i k))
      → All (λ (x : Text × Element). IsGrouped m x.1) m.names
      → (fuel : ℕ) (e : Element) → IsGrouped m e
      → is_fuzzable e ≡ true
      → size_of (
          get_mutations m
            (λ i k. library i (source_of i k))
            (λ i k. library_size i (source_of i k))
            fuel
            e)
        ≡ get_num_mutations m
            (λ i k. library i (source_of i k))
            (λ i k. library_size i (source_of i k))
            fuel
            e
  get_num_mutations-sources m source_of counted =
      get_num_mutations-get_mutations m (λ i k. library i (source_of i k))
        (λ i k. library_size i (source_of i k))
        (λ i k. library_size-library i (source_of i k) (counted i k))
