-- ===== src/Tests/Messages.antt =====
-- Messages at concrete inputs: the block `b` of the request `r` holds its own size `s` and `x`.
use boofuzz.Base.{
  ℕ, ◌+◌, ◌≡◌, ◌<◌, ◌≤◌, ◌%◌, refl, List, [], ◌∷◌, ◌++◌, none, some, true, false, length,
}
use boofuzz.Base.Int.{pos, ◌+ℤ◌}
use boofuzz.Base.Text.{Text, text_eq, text_mem, starts_with, join}
use boofuzz.Base.Runs.{Related}
use boofuzz.Primitives.BitField.{
  bit_field, big, binary, render_int, render_binary, pack_chunks, pad_bits, int_to_binary_string,
  binary_string_to_int, parse_binary,
}
use boofuzz.Blocks.Names.{dot, lookup_name, qualified_name, drop_empty}
use boofuzz.Blocks.Resolve.{resolve_name}
use boofuzz.Blocks.Element.{
  none_value, bytes, static_value, Info, SizeSpec, eq, Element, leaf, node, nil, cons, size,
  as_bytes, block,
}
use boofuzz.Blocks.Values.{render_all, align, str_to_bytes}
use boofuzz.Blocks.Render.{
  Message, target_of, original_value, get_value, encode_size, encode_leaf, encode_node, render,
}
use boofuzz.Blocks.Render.Stable.{IsStable}
use boofuzz.Blocks.Render.Lengths.{render-SameLength}
use boofuzz.Blocks.Render.Lengths.Parts.{SameLength}
use boofuzz.Blocks.Render.SizeField.{Announces, announced, render-Announces, align-multiple}

abbrev named : Text → Text → Info
named n path = record {
  name = n;
  context_path = path;
  default_value = static_value none_value;
  fuzzable = true;
  fuzz_values = [];
}

abbrev in_b : Text
in_b = b'r' ∷ dot ∷ b'b' ∷ []

abbrev size_spec : SizeSpec
size_spec = record {
  block_name = some (b'b' ∷ []);
  offset = pos 1;
  length = 2;
  endian = big;
  format = binary;
  inclusive = false;
  signed = false;
  math = λ x. x;
  bit_field = bit_field 16 none big binary false false;
}

abbrev size_info : Info
size_info = named (b's' ∷ []) in_b

abbrev payload : Element
payload =
    leaf (record (named (b'x' ∷ []) in_b) { default_value = static_value (bytes (1 ∷ 2 ∷ 3 ∷ [])) })
      as_bytes

abbrev the_block : Element
the_block =
    node (named (b'b' ∷ []) (b'r' ∷ []))
      (block (record {
        group = none;
        encoder = none;
        dep = none;
        dep_value = none_value;
        dep_values = [];
        dep_compare = eq;
      }))
      (cons (leaf size_info (size size_spec)) (cons payload nil))

abbrev message : Message
message = record {
  codec = λ e t. t;
  name = b'r' ∷ [];
  names = (in_b, the_block) ∷ [];
  context = record { mutations = []; session_variables = none };
}

abbrev own : Text
own = qualified_name in_b (b's' ∷ [])

stable : IsStable the_block
stable = (tt, (refl, (tt, tt)))

block_flagged : render message 3 (own ∷ []) the_block ≡ some (0 ∷ 0 ∷ 1 ∷ 2 ∷ 3 ∷ [])
unfolding render encode_node encode_leaf encode_size render_all get_value original_value
    str_to_bytes lookup_name text_mem text_eq qualified_name drop_empty join
block_flagged = refl

block_plain : render message 5 [] the_block ≡ some (0 ∷ 6 ∷ 1 ∷ 2 ∷ 3 ∷ [])
unfolding render encode_node encode_leaf encode_size render_all get_value original_value
    str_to_bytes lookup_name text_mem text_eq qualified_name drop_empty join target_of resolve_name
    starts_with render_int render_binary pack_chunks pad_bits int_to_binary_string
    binary_string_to_int parse_binary ◌+ℤ◌
block_plain = refl

render-SameLength_example :
    Related SameLength (render message 3 (own ∷ []) the_block) (render message 5 [] the_block)
render-SameLength_example =
    render-SameLength message (stable, tt) 3 5 (own ∷ []) [] the_block stable

no_mutation : get_value message 3 (leaf size_info (size size_spec)) ≡ some none_value
unfolding get_value original_value lookup_name
no_mutation = refl

leads_to_block : target_of message size_info (b'b' ∷ []) ≡ some the_block
unfolding target_of resolve_name starts_with lookup_name text_eq
leads_to_block = refl

no_flag : text_mem own [] ≡ false
unfolding text_mem
no_flag = refl

render-Announces_example :
    Announces size_spec
      (announced size_spec 5)
      (render message 4 [] (leaf size_info (size size_spec)))
render-Announces_example =
    render-Announces message size_info size_spec (stable, tt) refl 3 no_mutation [] no_flag
      (b'b' ∷ []) the_block refl leads_to_block (0 ∷ 0 ∷ 1 ∷ 2 ∷ 3 ∷ []) block_flagged 5 []
      (0 ∷ 6 ∷ 1 ∷ 2 ∷ 3 ∷ []) block_plain

align-multiple_example :
    (padding : List ℕ) × (align 4 (0 ∷ []) (1 ∷ 2 ∷ []) ≡ some ((1 ∷ 2 ∷ []) ++ padding))
    × (0 < length padding)
    × (length padding ≤ 4)
    × ((2 + length padding) % 4 ≡ 0)
align-multiple_example = align-multiple 3 0 [] (1 ∷ 2 ∷ [])
