-- ===== src/Blocks/Mutations.antt =====
-- The mutations of a message: `get_mutations` and `get_num_mutations` of boofuzz/fuzzable.py and
-- `mutations` and `num_mutations` of the classes with children. A group may name any element, so
-- the recursion takes fuel; `none` is an exception, RecursionError included.
pub mod Count
pub mod Numbers
use boofuzz.Base.{
  ℕ, zero, suc, ◌+◌, ◌*◌, Bool, true, false, List, [], ◌∷◌, ◌++◌, Option, none, some, ◌>>=◌, length,
  map, if◌then◌else◌,
}
use boofuzz.Base.Text.{Text, text_mem}
use boofuzz.Blocks.Element.{
  Value, Info, Leaf, BlockSpec, BlockKind, block, aligned, request, Element, leaf, node, Elements,
  nil, cons, info, qualified_name_of,
}
use boofuzz.Blocks.Values.{MutationValue, plain}
use boofuzz.Blocks.Render.{Message, target_of}

-- Mutation.
pub record Mutation : Type 0 where
  pub value : MutationValue
  pub qualified_name : Text
  pub index : ℕ

-- What an element's `mutations` yields: a value, a Mutation or a list of them.
pub data Yielded : Type 0 where
  value : MutationValue → Yielded
  mutation : Mutation → Yielded
  combination : List Mutation → Yielded

-- The loop of `Fuzzable.get_mutations`, at a position with the next index; `halted` says whether
-- `stop_mutations` has been called when a position is reached.
unfoldable pub number_mutations : (ℕ → Bool) → Text → ℕ → ℕ → List Yielded → List (List Mutation)
number_mutations halted name position index [] = []
number_mutations halted name position index (value v ∷ ys) =
    let rest = number_mutations halted name (position + 1) (index + 1) ys in
    if halted position
    then []
    else (record { value = v; qualified_name = name; index = index } ∷ []) ∷ rest
number_mutations halted name position index (mutation u ∷ ys) =
    let rest = number_mutations halted name (position + 1) index ys in
    if halted position then [] else (u ∷ []) ∷ rest
number_mutations halted name position index (combination us ∷ ys) =
    let rest = number_mutations halted name (position + 1) index ys in
    if halted position then [] else us ∷ rest

-- A request is always fuzzable.
abbrev pub is_fuzzable : Element → Bool
is_fuzzable (leaf i k) = i.fuzzable
is_fuzzable (node i (block spec) es) = i.fuzzable
is_fuzzable (node i (aligned modulus pattern) es) = i.fuzzable
is_fuzzable (node i (request open_block) es) = true

-- `FuzzableBlock.mutations`, for the mutations of an item.
unfoldable pub stack_mutations :
    (Element → Option (List (List Mutation))) → List Text → Elements → Option (List (List Mutation))
stack_mutations get skip_elements nil = some []
stack_mutations get skip_elements (cons e es) = do
  first ← (if text_mem (qualified_name_of e) skip_elements then some [] else get e)
  rest ← stack_mutations get skip_elements es
  some (first ++ rest)

-- Every mutation of the group together with every one of the items.
unfoldable pub combine : List (List Mutation) → List (List Mutation) → List (List Mutation)
combine [] own = []
combine (group_mutations ∷ rest) own = map (λ us. group_mutations ++ us) own ++ combine rest own

-- `FuzzableBlock.num_mutations`, for the number of an item.
unfoldable pub stack_num_mutations : (Element → Option ℕ) → Elements → Option ℕ
stack_num_mutations num nil = some 0
stack_num_mutations num (cons e es) = do
  first ← (if is_fuzzable e then num e else some 0)
  rest ← stack_num_mutations num es
  some (first + rest)

-- `itertools.chain(self.mutations(...), self._fuzz_values)`, when nothing stops it.
abbrev pub numbered : Element → List Yielded → List (List Mutation)
numbered e ys =
    number_mutations (λ _. false) (qualified_name_of e) 0 0
      (ys ++ map (λ v. value (plain v)) (info e).fuzz_values)

-- What the leaves yield, and the number that they announce.
module _ (m : Message) (library : Info → Leaf → List Yielded) (library_size : Info → Leaf → ℕ) where
  -- `Block.mutations`.
  unfoldable pub block_mutations :
      (Element → Option (List (List Mutation)))
      → Info
      → Option Text
      → Elements
      → Option (List (List Mutation))
  block_mutations get i none stack = stack_mutations get [] stack
  block_mutations get i (some group) stack = do
    own ← stack_mutations get [] stack
    target ← target_of m i group
    group_mutations ← get target
    some (own ++ combine group_mutations own)

  -- `Block.num_mutations`.
  unfoldable pub block_num_mutations :
      (Element → Option ℕ) → Info → Option Text → Elements → Option ℕ
  block_num_mutations num i none stack = stack_num_mutations num stack
  block_num_mutations num i (some group) stack = do
    n ← stack_num_mutations num stack
    target ← target_of m i group
    group_num ← num target
    some (n + n * group_num)

  abbrev pub when_fuzzable : Element → Option (List (List Mutation)) → Option (List (List Mutation))
  when_fuzzable e mutations = if is_fuzzable e then mutations else some []

  -- `get_mutations`; that of a request is `mutations` itself.
  unfoldable pub get_mutations : ℕ → Element → Option (List (List Mutation))
  get_mutations zero e = when_fuzzable e none
  get_mutations (suc fuel) (leaf i k) =
      when_fuzzable (leaf i k) (some (numbered (leaf i k) (library i k)))
  get_mutations (suc fuel) (node i (request open_block) stack) =
      stack_mutations (get_mutations fuel) [] stack
  get_mutations (suc fuel) (node i (block spec) stack) = when_fuzzable (node i (block spec) stack) (
      block_mutations (get_mutations fuel) i spec.group stack >>= λ us.
      some (numbered (node i (block spec) stack) (map combination us)))
  get_mutations (suc fuel) (node i (aligned modulus pattern) stack) =
      when_fuzzable (node i (aligned modulus pattern) stack) (
        stack_mutations (get_mutations fuel) [] stack >>= λ us.
        some (numbered (node i (aligned modulus pattern) stack) (map combination us)))

  -- `get_num_mutations`.
  unfoldable pub get_num_mutations : ℕ → Element → Option ℕ
  get_num_mutations zero e = none
  get_num_mutations (suc fuel) (leaf i k) = some (library_size i k + length i.fuzz_values)
  get_num_mutations (suc fuel) (node i (request open_block) stack) =
      stack_num_mutations (get_num_mutations fuel) stack
  get_num_mutations (suc fuel) (node i (block spec) stack) =
      block_num_mutations (get_num_mutations fuel) i spec.group stack >>= λ n.
      some (n + length i.fuzz_values)
  get_num_mutations (suc fuel) (node i (aligned modulus pattern) stack) =
      stack_num_mutations (get_num_mutations fuel) stack >>= λ n. some (n + length i.fuzz_values)
