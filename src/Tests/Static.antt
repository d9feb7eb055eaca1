-- ===== src/Tests/Static.antt =====
-- Requests that are defined call by call, at concrete inputs.
use boofuzz.Base.{ℕ, ◌<◌, ◌≡◌, refl, [], ◌∷◌, none, some, ◌>>=◌, true, false, All}
use boofuzz.Base.Text.{Text, text_eq, text_mem, codes, join}
use boofuzz.Primitives.Leaves.Sources.{nothing}
use boofuzz.Blocks.Names.{lookup_name, generate_context_path, qualified_name, drop_empty}
use boofuzz.Blocks.Element.{
  none_value, text, static_value, Info, block, as_bytes, Element, leaf, node, Elements, nil, cons,
}
use boofuzz.Blocks.Build.{push}
use boofuzz.Blocks.Build.Tree.{
  root, snoc, add, placed, push_element, empty_tree, initialize_child, request_of,
}
use boofuzz.Blocks.Build.Tree.Script.{script, run, run-request_of}
use boofuzz.Blocks.Build.Tree.Names.{all_names, request_of-all_names}
use boofuzz.Blocks.Build.Walk.{IsFilled, HasEmpty, depth, leaves, walk, walk-leaves}
use boofuzz.Static.{
  Globals, Definition, initial, empty_definition, attributes, s_initialize, on_current, put_request,
  push_from, pushed, fresh_name,
}
use boofuzz.Static.Primitives.{s_static}
use boofuzz.Static.Binary.{
  without, without_pair, cleaned, hex_digit, hex_byte, parse_pairs, s_binary,
}
use boofuzz.Static.Sound.{IsChosen}
use boofuzz.Static.Reached.{start, initialized, pushes, HasDistinctNames, Reached-AreDistinct}
use boofuzz.Tests.Mutations.{spec}

abbrev element : Text → Element
element n = leaf (attributes n (static_value (text [])) false []) as_bytes

abbrev block_of : Text → Elements → Element
block_of n es = node (attributes n (static_value none_value) true []) (block spec) es

-- A block `b` with an element `x`.
abbrev children : Elements
children = cons (block_of (codes "b") (cons (element (codes "x")) nil)) nil

run-request_of_example : run (script children) (empty_tree (codes "r")) ≡ (
    request_of (codes "r") children >>= λ r. some (record {
      builder = record { name = codes "r"; names = r.0; block_stack = [] };
      spine = root r.1;
    }))
run-request_of_example = run-request_of (codes "r") children

abbrev placed_at : Text → Text → Info
placed_at path n = placed path (attributes n (static_value (text [])) false [])

abbrev built : Elements
built =
    cons
      (node (placed (codes "r") (attributes (codes "b") (static_value none_value) true []))
        (block spec) (cons (leaf (placed_at (codes "r.b") (codes "x")) as_bytes) nil))
      nil

children-built :
    request_of (codes "r") children ≡ some (codes "r" ∷ codes "r.b" ∷ codes "r.b.x" ∷ [], built)
unfolding request_of initialize_child text_mem text_eq generate_context_path qualified_name
    drop_empty join
children-built = refl

all_names_example : codes "r" ∷ codes "r.b" ∷ codes "r.b.x" ∷ [] ≡ codes "r" ∷ all_names built
all_names_example =
    request_of-all_names (codes "r") children built (codes "r" ∷ codes "r.b" ∷ codes "r.b.x" ∷ [])
      children-built

walk_example :
    (IsFilled children
      → (fuel : ℕ) → depth children < fuel
      → walk fuel children children ≡ some (leaves children))
    × (HasEmpty children → (fuel : ℕ) → walk fuel children children ≡ none)
walk_example = walk-leaves children

abbrev begun : Globals
begun = record {
  requests = (codes "r", empty_definition (codes "r")) ∷ [];
  current = some (codes "r");
  name_counter = 0;
}

begins : s_initialize (codes "r") initial ≡ some begun
unfolding s_initialize lookup_name
begins = refl

abbrev with_element : Definition
with_element = record {
  tree = record {
    builder = record { name = codes "r"; names = codes "r" ∷ codes "r.x" ∷ []; block_stack = [] };
    spine = root (cons (leaf (placed_at (codes "r") (codes "x")) as_bytes) nil);
  };
  sources = (codes "r.x", nothing) ∷ [];
}

abbrev filled : Globals
filled = record begun { requests = (codes "r", with_element) ∷ [] }

fills : on_current (push_from (element (codes "x")) nothing) begun ≡ some filled
unfolding on_current push_from push_element push put_request lookup_name text_mem text_eq
    generate_context_path qualified_name drop_empty join snoc add
fills = refl

binary_pushed : s_binary (codes "0x41, 42") (some (codes "x")) begun ≡ some filled
unfolding s_binary cleaned without without_pair parse_pairs hex_byte hex_digit s_static pushed
    fresh_name on_current push_from push_element push put_request lookup_name text_mem text_eq
    generate_context_path qualified_name drop_empty join snoc add
binary_pushed = refl

element-pushed : pushed (codes "Static") (some (codes "x")) element nothing begun ≡ some filled
unfolding pushed fresh_name
element-pushed = fills

Reached_example : All HasDistinctNames filled.requests × IsChosen filled
Reached_example = Reached-AreDistinct (
    pushes (codes "Static") (some (codes "x")) element nothing element-pushed
      (initialized (codes "r") begins start))
