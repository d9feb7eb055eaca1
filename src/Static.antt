-- ===== src/Static.antt =====
-- boofuzz/__init__.py: the functions that define requests one call at a time, on the global
-- `blocks.REQUESTS` and `blocks.CURRENT`. `none` is an exception.
pub mod Blocks
pub mod Primitives
pub mod Binary
pub mod Current
pub mod Sound
pub mod Reached
use boofuzz.Base.{
  ℕ, ◌+◌, Bool, true, false, List, [], ◌∷◌, ◌++◌, Option, none, some, ◌>>=◌, if◌then◌else◌,
}
use boofuzz.Base.Int.{pos}
use boofuzz.Base.Text.{Text, text_eq}
use boofuzz.Primitives.BitField.{format_d}
use boofuzz.Primitives.Leaves.Sources.{Source}
use boofuzz.Blocks.Names.{lookup_name}
use boofuzz.Blocks.Element.{Value, DefaultValue, Info, Element}
use boofuzz.Blocks.Build.{name_of}
use boofuzz.Blocks.Build.Tree.{Tree, item_of, push_element, pop_block, empty_tree}

-- A request: its tree, and by qualified name what each element is mutated by.
pub record Definition : Type 0 where
  pub tree : Tree
  pub sources : List (Text × Source)

-- `blocks.REQUESTS`, the name of the request that `blocks.CURRENT` is, and `Fuzzable.name_counter`.
pub record Globals : Type 0 where
  pub requests : List (Text × Definition)
  pub current : Option Text
  pub name_counter : ℕ

abbrev pub initial : Globals
initial = record { requests = []; current = none; name_counter = 0 }

abbrev pub empty_definition : Text → Definition
empty_definition name = record { tree = empty_tree name; sources = [] }

-- `s_initialize`.
unfoldable pub s_initialize : Text → Globals → Option Globals
s_initialize name g = elim (lookup_name name g.requests) [
  | some d ↦ none
  | none ↦ some (record g {
    requests = g.requests ++ (name, empty_definition name) ∷ [];
    current = some name;
  })
]

-- `s_switch`.
unfoldable pub s_switch : Text → Globals → Option Globals
s_switch name g = elim (lookup_name name g.requests) [
  | some d ↦ some (record g { current = some name })
  | none ↦ none
]

-- `s_get`, without a name (or with an empty one) and with one: the name of the request that it
-- returns, if `blocks.CURRENT` is not None.
unfoldable pub s_get : Option Text → Globals → Option (Option Text × Globals)
s_get none g = some (g.current, g)
s_get (some []) g = some (g.current, g)
s_get (some (c ∷ cs)) g = s_switch (c ∷ cs) g >>= λ switched. some (some (c ∷ cs), switched)

-- `blocks.CURRENT` is the object that `blocks.REQUESTS` holds under its name, so what a method
-- changes in it is there as well: a store of one object for each name.
unfoldable pub put_request : Text → Definition → List (Text × Definition) → List (Text × Definition)
unfolding text_eq
put_request name d [] = []
put_request name d ((n, old) ∷ rest) =
    let others = put_request name d rest in
    if text_eq n name then (n, d) ∷ rest else (n, old) ∷ others

-- A method of `blocks.CURRENT`; that of None is an AttributeError.
unfoldable pub on_current : (Definition → Option Definition) → Globals → Option Globals
on_current method g = do
  name ← g.current
  before ← lookup_name name g.requests
  after ← method before
  some (record g { requests = put_request name after g.requests })

-- The name of an element: one that is not given is made of its class and the counter.
unfoldable pub fresh_name : Text → Option Text → Globals → Text × Globals
fresh_name class_name (some name) g = (name, g)
fresh_name class_name none g = (
  class_name ++ format_d (pos (g.name_counter + 1)),
  record g { name_counter = g.name_counter + 1 },
)

-- `Request.push`, with the source of the element.
unfoldable pub push_from : Element → Source → Definition → Option Definition
push_from e source d = do
  tree ← push_element e d.tree
  some (record {
    tree = tree;
    sources = d.sources ++ (name_of (item_of e) d.tree.builder, source) ∷ [];
  })

-- `blocks.CURRENT.push(Class(name=name, ...))`, for the element that the constructor makes of a name.
unfoldable pub pushed : Text → Option Text → (Text → Element) → Source → Globals → Option Globals
pushed class_name name constructed source g =
    let named = fresh_name class_name name g in
    on_current (push_from (constructed named.0) source) named.1

-- `blocks.CURRENT.pop()`.
unfoldable pub popped : Globals → Option Globals
popped g = on_current (λ d. pop_block d.tree >>= λ t. some (record d { tree = t })) g

-- The attributes that `Fuzzable.__init__` keeps.
abbrev pub attributes : Text → DefaultValue → Bool → List Value → Info
attributes name default_value fuzzable fuzz_values = record {
  name = name;
  context_path = [];
  default_value = default_value;
  fuzzable = fuzzable;
  fuzz_values = fuzz_values;
}
