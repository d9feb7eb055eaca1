-- ===== src/Tests/Mutations.antt =====
-- Mutations at concrete inputs: a block `b` whose group is the element `g`, each leaf with two values.
use boofuzz.Base.{
  ◌≡◌, refl, ap, sym, ◌∙◌, List, [], ◌∷◌, Option, none, some, true, false, Bool, take, ◌==◌,
}
use boofuzz.Base.Text.{Text, text_eq, starts_with}
use boofuzz.Blocks.Names.{dot, lookup_name}
use boofuzz.Blocks.Resolve.{resolve_name}
use boofuzz.Blocks.Element.{
  none_value, bytes, static_value, Info, Leaf, BlockSpec, eq, Element, leaf, node, nil, cons,
  as_bytes, or_empty, block,
}
use boofuzz.Blocks.Values.{plain}
use boofuzz.Blocks.Render.{Message, target_of}
use boofuzz.Blocks.Mutations.{
  Mutation, Yielded, value, number_mutations, get_mutations, get_num_mutations, is_fuzzable,
}
use boofuzz.Blocks.Mutations.Numbers.{number_mutations-take}
use boofuzz.Blocks.Mutations.Count.{size_of, get_num_mutations-get_mutations}

abbrev pub named : Text → Text → Info
named n path = record {
  name = n;
  context_path = path;
  default_value = static_value none_value;
  fuzzable = true;
  fuzz_values = [];
}

abbrev pub r : Text
r = b'r' ∷ []

abbrev pub the_group : Element
the_group = leaf (named (b'g' ∷ []) r) or_empty

abbrev pub spec : BlockSpec
spec = record {
  group = some (b'g' ∷ []);
  encoder = none;
  dep = none;
  dep_value = none_value;
  dep_values = [];
  dep_compare = eq;
}

abbrev pub the_block : Element
the_block =
    node (named (b'b' ∷ []) r) (block spec) (cons (leaf (named (b'x' ∷ []) (r)) as_bytes) nil)

abbrev pub message : Message
message = record {
  codec = λ e t. t;
  name = r;
  names = (b'r' ∷ dot ∷ b'g' ∷ [], the_group) ∷ [];
  context = record { mutations = []; session_variables = none };
}

abbrev two_values : Info → Leaf → List Yielded
two_values i k = value (plain none_value) ∷ value (plain (bytes [])) ∷ []

leads_to_group : target_of message (named (b'b' ∷ []) r) (b'g' ∷ []) ≡ some the_group
unfolding target_of resolve_name starts_with lookup_name text_eq
leads_to_group = refl

pub group_is_fuzzable :
    (t : Element)
    → target_of message (named (b'b' ∷ []) r) (b'g' ∷ []) ≡ some t
    → is_fuzzable t ≡ true
group_is_fuzzable t leads = ap fuzzable_or (sym leads ∙ leads_to_group)
  where
    fuzzable_or : Option Element → Bool
    fuzzable_or none = false
    fuzzable_or (some e) = is_fuzzable e

counts_example :
    size_of (get_mutations message two_values (λ i k. 2) 3 the_block)
    ≡ get_num_mutations message two_values (λ i k. 2) 3 the_block
counts_example =
    get_num_mutations-get_mutations message two_values (λ i k. 2) (λ i k. refl) (tt, tt) 3 the_block
      (group_is_fuzzable, (tt, tt)) refl

take_example :
    number_mutations (λ n. n == 1) r 0 0 (two_values (named r r) or_empty)
    ≡ take 1 (number_mutations (λ _. false) r 0 0 (two_values (named r r) or_empty))
take_example =
    number_mutations-take (λ n. n == 1) r 1 0 0 (two_values (named r r) or_empty) (refl, refl)

abbrev one_each : List Text → List (List Mutation)
one_each skip_elements =
    (record { value = plain none_value; qualified_name = b'r' ∷ []; index = 0 } ∷ [])
    ∷ (record { value = plain none_value; qualified_name = b'r' ∷ []; index = 1 } ∷ [])
    ∷ []
