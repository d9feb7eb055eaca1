-- ===== src/Blocks/Render.antt =====
-- Rendering a message: `render`, `get_value`, `original_value` and the `encode` methods of
-- boofuzz/fuzzable.py, boofuzz/fuzzable_block.py, boofuzz/blocks and boofuzz/primitives. References
-- may run in a circle, so it takes fuel; `none` is an exception, Python's RecursionError included.
pub mod Stable
pub mod Lengths
pub mod SizeField
use boofuzz.Base.{
  ℕ, zero, suc, ◌+◌, ◌-◌, ◌*◌, ◌/◌, ◌%◌, Bool, true, false, not, ◌&&◌, ◌||◌, List, [], ◌∷◌, ◌++◌,
  Option, none, some, ltb, leb, ◌==◌, if◌then◌else◌, length, take, replicate, times, ◌>>=◌,
}
use boofuzz.Base.Int.{ℤ, pos, negsuc, ◌+ℤ◌, ltb_ℤ}
use boofuzz.Base.Text.{Text, text_eq, text_mem}
use boofuzz.Primitives.BitField.{BitField, render_int, encode}
use boofuzz.Blocks.Names.{lookup_name, qualified_name}
use boofuzz.Blocks.Resolve.{Resolution, found, name_error, out_of_fuel, resolve_name}
use boofuzz.Blocks.Element.{
  Value, none_value, bytes, text, int, DefaultValue, static_value, reference, Info, SizeSpec,
  ChecksumSpec, Leaf, unchanged, or_empty, as_bytes, string, number, size, checksum, repeat, mirror,
  Comparison, BlockSpec, BlockKind, block, aligned, request, Element, leaf, node, Elements, nil,
  cons, info, qualified_name_of,
}
use boofuzz.Blocks.Values.{
  MutationValue, MutationContext, Codec, utf8, str_to_bytes, as_rendered, none_as_empty, pad_to,
  encode_string, encode_number, bytes_lt, value_eq, value_mem, value_lt, negated, eq_allows,
  dependency_allows, render_all, align, repeat_bytes, apply_encoder, mutated, default_of, plain,
  callable,
}

-- What rendering depends on: the codec, the request's name and names, and the mutation context.
pub record Message : Type 0 where
  pub codec : Codec
  pub name : Text
  pub names : List (Text × Element)
  pub context : MutationContext

-- A name that does not resolve is an exception.
abbrev pub resolved_of : {A : Type 0} → Resolution A → Option A
resolved_of (found e) = some e
resolved_of _ = none

-- `_inclusive_length_of_self`.
abbrev pub inclusive_length : SizeSpec → ℕ
inclusive_length s = if s.inclusive then s.length else 0

module _ (m : Message) where
  -- The element that another one refers to.
  unfoldable pub target_of : Info → Text → Option Element
  target_of i name = resolved_of (resolve_name m.names m.name i.context_path (some name))

  -- Mirror overrides `original_value` by that of its target.
  unfoldable pub original_value : ℕ → Element → Option Value
  original_value zero e = none
  original_value (suc fuel) (leaf i (mirror none)) = some none_value
  original_value (suc fuel) (leaf i (mirror (some name))) = target_of i name >>= original_value fuel
  original_value (suc fuel) e = default_of m.context.session_variables (info e).default_value

  unfoldable pub get_value : ℕ → Element → Option Value
  get_value fuel e = elim (lookup_name (qualified_name_of e) m.context.mutations) [
    | none ↦ original_value fuel e
    | some v ↦ mutated v (original_value fuel e)
  ]

  -- The methods below take the rendering of other elements, which sets the flags that it is given.
  abbrev pub Renderer : Type 0
  Renderer = List Text → Element → Option (List ℕ)

  -- `_length_of_target_block`, under the raised recursion flag.
  abbrev pub length_of_target : Renderer → List Text → Info → Option Text → Option ℕ
  length_of_target render flags i none = some 0
  length_of_target render flags i (some name) = do
    target ← target_of i name
    b ← render (qualified_name i.context_path i.name ∷ flags) target
    some (length b)

  -- Size.encode.
  unfoldable pub encode_size : Renderer → List Text → Info → SizeSpec → Value → Option (List ℕ)
  encode_size render flags i s none_value =
      if text_mem (qualified_name i.context_path i.name) flags
      then some (replicate s.length 0)
      else do
        target_length ← length_of_target render flags i s.block_name
        render_int (s.math (s.offset +ℤ pos (inclusive_length s) +ℤ pos target_length)) s.format
            (s.length * 8) s.endian s.signed
  encode_size render flags i s v = encode_number s.bit_field v

  -- `_render_block` of Checksum, under the raised recursion flag.
  abbrev pub render_block : Renderer → List Text → Info → Option Text → Option (Option (List ℕ))
  render_block render flags i none = some none
  render_block render flags i (some name) = do
    target ← target_of i name
    b ← render (qualified_name i.context_path i.name ∷ flags) target
    some (some b)

  -- Checksum.encode.
  unfoldable pub encode_checksum :
      Renderer → List Text → Info → ChecksumSpec → Value → Option (List ℕ)
  encode_checksum render flags i c none_value =
      if text_mem (qualified_name i.context_path i.name) flags
      then some (replicate c.length 0)
      else do
        contents ← render_block render flags i c.block_name
        ipv4_src ← render_block render flags i c.ipv4_src_block_name
        ipv4_dst ← render_block render flags i c.ipv4_dst_block_name
        c.checksum contents ipv4_src ipv4_dst
  encode_checksum render flags i c v = as_rendered v

  unfoldable pub encode_leaf : Renderer → List Text → Info → Leaf → Value → Option (List ℕ)
  encode_leaf render flags i unchanged v = as_rendered v
  encode_leaf render flags i or_empty v = as_rendered (none_as_empty v)
  encode_leaf render flags i as_bytes v = str_to_bytes m.codec (none_as_empty v)
  encode_leaf render flags i (string n padding encoding) v =
      encode_string m.codec n padding encoding v
  encode_leaf render flags i (number f) v = encode_number f v
  encode_leaf render flags i (size s) v = encode_size render flags i s v
  encode_leaf render flags i (checksum c) v = encode_checksum render flags i c v
  encode_leaf render flags i (repeat none) v = repeat_bytes v []
  encode_leaf render flags i (repeat (some name)) v = do
    target ← target_of i name
    b ← render flags target
    repeat_bytes v b
  encode_leaf render flags i (mirror none) v = none
  encode_leaf render flags i (mirror (some name)) v = target_of i name >>= render flags

  -- `_do_dependencies_allow_render`.
  abbrev pub dependencies_allow_render : ℕ → Info → BlockSpec → Option Text → Option Bool
  dependencies_allow_render fuel i spec none = some true
  dependencies_allow_render fuel i spec (some []) = some true
  dependencies_allow_render fuel i spec (some (c ∷ cs)) = do
    target ← target_of i (c ∷ cs)
    v ← get_value fuel target
    dependency_allows spec.dep_compare spec v

  -- `encode` of the classes with children.
  unfoldable pub encode_node :
      ℕ → (Element → Option (List ℕ)) → Info → BlockKind → Elements → Option (List ℕ)
  encode_node fuel render i (block spec) stack = do
    allowed ← dependencies_allow_render fuel i spec spec.dep
    child_data ← (if allowed then render_all render stack else some [])
    some (apply_encoder spec.encoder child_data)
  encode_node fuel render i (aligned modulus pattern) stack =
      render_all render stack >>= align modulus pattern
  encode_node fuel render i (request open_block) stack =
      if open_block then none else render_all render stack

  -- `render`; that of a request does not look up its own value.
  unfoldable pub render : ℕ → Renderer
  render zero flags e = none
  render (suc fuel) flags (leaf i k) =
      get_value fuel (leaf i k) >>= encode_leaf (render fuel) flags i k
  render (suc fuel) flags (node i (request open_block) stack) =
      encode_node fuel (render fuel flags) i (request open_block) stack
  render (suc fuel) flags (node i k stack) =
      get_value fuel (node i k stack) >>= λ _. encode_node fuel (render fuel flags) i k stack
