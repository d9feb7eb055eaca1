-- ===== src/Blocks/Names.antt =====
-- The names of a request's elements (boofuzz/blocks/request.py, boofuzz/fuzzable.py): a dictionary
-- from qualified names, in insertion order.
use boofuzz.Base.{ℕ, Bool, List, [], ◌∷◌, Option, none, some, if◌then◌else◌}
use boofuzz.Base.Text.{Text, text_eq, join}

-- `"."`.
abbrev pub dot : ℕ
dot = b'.'

module _ {A : Type 0} where
  unfoldable pub lookup_name : Text → List (Text × A) → Option A
  unfolding text_eq
  lookup_name k [] = none
  lookup_name k ((j, v) ∷ names) = if text_eq j k then some v else lookup_name k names

  -- The keys of the dictionary that satisfy a test, with their values.
  unfoldable pub select_names : (Text → Bool) → List (Text × A) → List (Text × A)
  select_names test [] = []
  select_names test ((j, v) ∷ names) =
      let rest = select_names test names in if test j then (j, v) ∷ rest else rest

-- `filter(None, ...)`: the texts that are not empty.
unfoldable pub drop_empty : List Text → List Text
drop_empty [] = []
drop_empty ([] ∷ ts) = drop_empty ts
drop_empty ((c ∷ cs) ∷ ts) = (c ∷ cs) ∷ drop_empty ts

-- `_generate_context_path`, from the request's name and the names of the open blocks, outermost
-- first.
unfoldable pub generate_context_path : Text → List Text → Text
unfolding drop_empty join
generate_context_path name block_names =
    join (dot ∷ []) (drop_empty (name ∷ join (dot ∷ []) block_names ∷ []))

-- `qualified_name`, from the context path and the element's name.
unfoldable pub qualified_name : Text → Text → Text
unfolding drop_empty join
qualified_name context_path name = join (dot ∷ []) (drop_empty (context_path ∷ name ∷ []))
