-- ===== src/Session/Paths.antt =====
-- The paths through a session's graph and the number of test cases: `_num_mutations_recursive` and
-- `_iterate_protocol_message_paths_recursive`. Both recurse along the edges, so they take fuel;
-- `none` is a KeyError, or Python's RecursionError. The list of edges that they share is a state
-- that is passed on: a generator's result is what it yields, each path as it stands at that time.
pub mod Walk
pub mod Acyclic
pub mod Count
pub mod Named
use boofuzz.Base.{
  ℕ, zero, suc, ◌+◌, Bool, List, [], ◌∷◌, ◌++◌, Option, none, some, ◌==◌, if◌then◌else◌, ◌>>=◌, ltb,
  ◌⊎◌, inl, inr,
}
use boofuzz.Base.Dict.{lookup}
use boofuzz.Base.Text.{text_eq}
use boofuzz.Graph.{Node, Edge, Graph, edges_from}

-- `if path: path.pop()`.
unfoldable pub pop : List Edge → List Edge
pop [] = []
pop (e ∷ []) = []
pop (e ∷ f ∷ path) = e ∷ pop (f ∷ path)

module _ (g : Graph) where
  -- What is yielded, and the path afterwards.
  abbrev pub Iteration : Type 0
  Iteration = Option (List (List Edge) × List Edge)

  -- The loop over the edges of a node.
  unfoldable pub iterate_edges : (ℕ → List Edge → Iteration) → List Edge → List Edge → Iteration
  iterate_edges iterate [] path = some ([], path)
  iterate_edges iterate (e ∷ es) path = do
    let extended = path ++ e ∷ []
    fuzz_node ← lookup e.dst g.nodes
    inner ← iterate fuzz_node.id extended
    rest ← iterate_edges iterate es inner.1
    some (extended ∷ (inner.0 ++ rest.0), rest.1)

  -- `_iterate_protocol_message_paths_recursive`.
  unfoldable pub iterate_paths : ℕ → ℕ → List Edge → Iteration
  unfolding iterate_edges pop
  iterate_paths zero this_node path = none
  iterate_paths (suc fuel) this_node path = do
    result ← iterate_edges (iterate_paths fuel) (edges_from this_node g) path
    some (result.0, pop result.1)

  module _ (get_num_mutations : Node → ℕ) (root : ℕ) where
    -- `total_num_mutations` and the path afterwards.
    abbrev pub Count : Type 0
    Count = Option (ℕ × List Edge)

    unfoldable pub count_edges : (ℕ → ℕ → List Edge → Count) → List Edge → ℕ → List Edge → Count
    count_edges count [] total path = some (total, path)
    count_edges count (e ∷ es) total path = do
      next_node ← lookup e.dst g.nodes
      inner ←
          count next_node.id (total + get_num_mutations next_node)
            (if e.src == root then path else path ++ e ∷ [])
      count_edges count es inner.0 inner.1

    -- `_num_mutations_recursive`.
    unfoldable pub num_mutations_recursive : ℕ → ℕ → ℕ → List Edge → Count
    unfolding count_edges pop
    num_mutations_recursive zero this_node total path = none
    num_mutations_recursive (suc fuel) this_node total path = do
      result ← count_edges (num_mutations_recursive fuel) (edges_from this_node g) total path
      some (result.0, pop result.1)

    -- `num_mutations`, with no path yet: combinatorial fuzzing has no count.
    unfoldable pub num_mutations : ℕ → Option ℕ → Option (Option ℕ)
    num_mutations fuel none = some none
    num_mutations fuel (some max_depth) =
        if ltb 1 max_depth
        then some none
        else num_mutations_recursive fuel root 0 [] >>= λ count. some (some count.0)

  -- The errors of a session with no target and with no request.
  pub data PathsError : Type 0 where
    no_targets no_requests too_deep : PathsError

  -- `_iterate_protocol_message_paths`, for a path that is given or for all of them.
  unfoldable pub iterate_protocol_message_paths :
      ℕ → (targets root : ℕ) → Option (List Edge) → List (List Edge) ⊎ PathsError
  iterate_protocol_message_paths fuel zero root given = inr no_targets
  iterate_protocol_message_paths fuel (suc targets) root given = chosen (edges_from root g) given
    where
      yielded : Iteration → List (List Edge) ⊎ PathsError
      yielded none = inr too_deep
      yielded (some result) = inl result.0

      chosen : List Edge → Option (List Edge) → List (List Edge) ⊎ PathsError
      chosen [] o = inr no_requests
      chosen (e ∷ es) (some path) = inl (path ∷ [])
      chosen (e ∷ es) none = yielded (iterate_paths fuel root [])

  -- The first of the edges that leads to a node with the name, with that node. A destination that is
  -- not stored is a KeyError.
  unfoldable pub edge_to_name : List ℕ → List Edge → Option (Edge × Node)
  edge_to_name node_name [] = none
  edge_to_name node_name (e ∷ es) = do
    n ← lookup e.dst g.nodes
    if text_eq n.name node_name then some (e, n) else edge_to_name node_name es

  -- `_path_names_to_edges`, from a node; `none` is the exception that no edge was found.
  unfoldable pub path_names_to_edges : ℕ → List (List ℕ) → Option (List Edge)
  unfolding edge_to_name
  path_names_to_edges cur_node [] = some []
  path_names_to_edges cur_node (node_name ∷ node_names) = do
    step ← edge_to_name node_name (edges_from cur_node g)
    rest ← path_names_to_edges step.1.id node_names
    some (step.0 ∷ rest)
