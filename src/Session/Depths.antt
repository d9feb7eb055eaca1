-- ===== src/Session/Depths.antt =====
-- The test cases of a session at increasing depths (boofuzz/sessions/session.py):
-- `_generate_n_mutations`, `_generate_mutations_indefinitely`, `_generate_single_case_by_index` and
-- what `fuzz` announces and fuzzes. A generator's result is what it yields; `none` is a KeyError, a
-- RecursionError, or a fuel that ran out.
pub mod Announced
use boofuzz.Base.{
  ℕ, zero, suc, ◌+◌, Bool, true, false, List, [], ◌∷◌, ◌++◌, Option, none, some, map, ltb, leb,
  ◌==◌, ◌⊎◌, inl, inr, if◌then◌else◌, length, ◌>>=◌,
}
use boofuzz.Base.Dict.{lookup}
use boofuzz.Base.Text.{Text}
use boofuzz.Blocks.Mutations.{Mutation}
use boofuzz.Graph.{Node, Edge, Graph}
use boofuzz.Session.Paths.{iterate_protocol_message_paths, num_mutations}
use boofuzz.Session.Generate.{generate_n_mutations_for_path}

-- MutationContext, with its `message_path` and `mutations`.
pub record TestCase : Type 0 where
  pub message_path : List Edge
  pub mutations : List Mutation

-- `nodes[path[-1].dst]`.
unfoldable pub fuzz_node_of : Graph → List Edge → Option Node
fuzz_node_of g [] = none
fuzz_node_of g (e ∷ []) = lookup e.dst g.nodes
fuzz_node_of g (e ∷ f ∷ path) = fuzz_node_of g (f ∷ path)

-- The paths that are iterated, unless an exception is raised.
abbrev pub unless_raised : {X : Type 0} → List (List Edge) ⊎ X → Option (List (List Edge))
unless_raised (inl paths) = some paths
unless_raised (inr e) = none

-- `get_mutations` stands for what `_generate_mutations_for_request` yields of a request: all of its
-- mutations, or fewer once a crash threshold makes it leave out the rest of the request or of an
-- element.
module _ (g : Graph)
    (get_mutations : Node → (skip_elements : List Text) → List (List Mutation)) where
  abbrev pub cases_of_node : ℕ → List Edge → Node → List TestCase
  cases_of_node depth path n =
      map (λ us. record { message_path = path; mutations = us })
        (generate_n_mutations_for_path (get_mutations n) depth)

  -- `_generate_n_mutations`, over the paths that are iterated.
  unfoldable pub generate_n_mutations : ℕ → List (List Edge) → Option (List TestCase)
  generate_n_mutations depth [] = some []
  generate_n_mutations depth (path ∷ paths) = do
    n ← fuzz_node_of g path
    rest ← generate_n_mutations depth paths
    some (cases_of_node depth path n ++ rest)

  -- `max_depth is None or depth <= max_depth`.
  abbrev pub within_depth : Option ℕ → ℕ → Bool
  within_depth none depth = true
  within_depth (some max_depth) depth = leb depth max_depth

  abbrev pub then_deeper : Option (List TestCase) → List TestCase → Option (List TestCase)
  then_deeper deeper [] = some []
  then_deeper deeper (c ∷ cs) = deeper >>= λ rest. some ((c ∷ cs) ++ rest)

  -- The loop of `_generate_mutations_indefinitely`, which stops after a depth without a case.
  unfoldable pub generate_from : ℕ → Option ℕ → ℕ → List (List Edge) → Option (List TestCase)
  generate_from zero max_depth depth paths = none
  generate_from (suc fuel) max_depth depth paths =
      let deeper = generate_from fuel max_depth (depth + 1) paths in
      if within_depth max_depth depth
      then generate_n_mutations depth paths >>= then_deeper deeper
      else some []

  -- `_generate_mutations_indefinitely`; each depth iterates over the same paths.
  unfoldable pub generate_mutations_indefinitely :
      (targets fuel root : ℕ) → Option ℕ → Option (List TestCase)
  generate_mutations_indefinitely targets fuel root max_depth =
      if within_depth max_depth 1
      then unless_raised (iterate_protocol_message_paths g fuel targets root none)
        >>= generate_from fuel max_depth 1
      else some []

  -- The loop of `_generate_single_case_by_index`, from an index on.
  unfoldable pub single_from : ℕ → ℕ → List TestCase → List TestCase
  single_from fuzz_index test_case_index [] = []
  single_from fuzz_index test_case_index (c ∷ cs) =
      if leb test_case_index fuzz_index
      then c ∷ []
      else single_from (fuzz_index + 1) test_case_index cs

  unfoldable pub generate_single_case_by_index : ℕ → List TestCase → List TestCase
  generate_single_case_by_index test_case_index cs = single_from 1 test_case_index cs

  -- What `fuzz` without a name announces, and the cases that it hands to the main loop.
  unfoldable pub fuzz_all :
      (Node → ℕ) → (targets fuel root : ℕ) → Option ℕ → Option (Option ℕ × List TestCase)
  fuzz_all get_num_mutations targets fuel root max_depth = do
    announced ← num_mutations g get_num_mutations root fuel max_depth
    cases ← generate_mutations_indefinitely targets fuel root max_depth
    some (announced, cases)
