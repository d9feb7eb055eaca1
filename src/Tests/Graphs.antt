-- ===== src/Tests/Graphs.antt =====
-- Graphs at concrete inputs: a root with two messages, one after the other.
use boofuzz.Base.{ℕ, ◌≡◌, ◌≢◌, refl, List, [], ◌∷◌, some, All, arith, true, zero, suc}
use boofuzz.Base.Dict.{lookup, insert}
use boofuzz.Graph.{
  Node, Edge, Graph, edge_of, edge_id, empty_graph, add_node, add_edge, values, find_node,
  edges_from, all_where, has_key, first_where,
}
use boofuzz.Graph.Reachable.{Reachable, start, node_added, edge_added, Reachable-IsWellFormed}
use boofuzz.Graph.Keys.{IsWellFormed}
use boofuzz.Base.Text.{text_eq}
use boofuzz.Session.Paths.{
  pop, iterate_paths, num_mutations_recursive, path_names_to_edges, edge_to_name,
}
use boofuzz.Session.Paths.Named.{LeadsThrough, path_names_to_edges-LeadsThrough}
use boofuzz.Session.Paths.Walk.{IsWalk, IsIteration}
use boofuzz.Session.Paths.Acyclic.{Descends, iterate_paths-walks}
use boofuzz.Session.Paths.Count.{Counts, total_cases, num_mutations-total_cases}
use boofuzz.Session.Depths.{TestCase, fuzz_all}
use boofuzz.Session.Depths.Announced.{fuzz_all-announced}
use boofuzz.Blocks.Mutations.{Mutation}
use boofuzz.Blocks.Element.{none_value}
use boofuzz.Blocks.Values.{plain}
use boofuzz.Base.Text.{Text}
use boofuzz.Base.{length}

abbrev request_node : ℕ → Node
request_node id = record { id = id; number = 0; name = b'n' ∷ [] }

abbrev two : Graph
two = add_node (request_node 1) (add_node (request_node 0) empty_graph)

abbrev three : Graph
three = add_edge (edge_of 1 2) true (add_edge (edge_of 0 1) true (add_node (request_node 2) two))

three-Reachable : Reachable three
three-Reachable = edge_added 1 2 true (
    edge_added 0 1 true (
      node_added (request_node 2)
        (node_added (request_node 1) (node_added (request_node 0) start))))

Reachable-IsWellFormed_example : IsWellFormed three
Reachable-IsWellFormed_example = Reachable-IsWellFormed three-Reachable

abbrev rank : ℕ → ℕ
rank zero = 2
rank (suc zero) = 1
rank (suc (suc n)) = 0

three-Descends : All (Descends three rank) (values three.edges)
unfolding add_edge add_node lookup insert has_key find_node first_where edge_id
three-Descends = (
  ((record (request_node 1) { number = 1 }, refl), omega arith),
  (((record (request_node 2) { number = 2 }, refl), omega arith), tt),
)

iterate_paths-walks_example :
    (ys : List (List Edge)) × (iterate_paths three 3 0 [] ≡ some (ys, pop []))
    × IsIteration three [] (edges_from 0 three) ys
iterate_paths-walks_example =
    iterate_paths-walks three (Reachable-IsWellFormed three-Reachable).0 rank three-Descends 3 0
      (omega arith) []

num_mutations_example :
    (ys : List (List Edge)) × (iterate_paths three 3 0 [] ≡ some (ys, []))
    × Counts three
        (λ n. 5)
        0
        (num_mutations_recursive three (λ n. 5) 0 3 0 0 [])
        (total_cases three (λ n. 5) 0 ys)
num_mutations_example =
    num_mutations-total_cases three (λ n. 5) 0 rank 3 (Reachable-IsWellFormed three-Reachable).0
      three-Descends (omega arith)

one_step : path_names_to_edges three 0 ((b'n' ∷ []) ∷ []) ≡ some (edge_of 0 1 ∷ [])
unfolding path_names_to_edges edge_to_name text_eq add_edge add_node lookup insert has_key find_node
    first_where edge_id edges_from all_where
one_step = refl

path_names_example :
    IsWalk three 0 (edge_of 0 1 ∷ [])
    × LeadsThrough three
        (Reachable-IsWellFormed three-Reachable).0
        (edge_of 0 1 ∷ [])
        ((b'n' ∷ []) ∷ [])
path_names_example =
    path_names_to_edges-LeadsThrough three (Reachable-IsWellFormed three-Reachable).0 0
      ((b'n' ∷ []) ∷ []) (edge_of 0 1 ∷ []) one_step

abbrev two_mutations : Node → List Text → List (List Mutation)
two_mutations n skip_elements =
    (record { value = plain none_value; qualified_name = b'r' ∷ []; index = 0 } ∷ [])
    ∷ (record { value = plain none_value; qualified_name = b'r' ∷ []; index = 1 } ∷ [])
    ∷ []

a_first : edges_from 0 three ≡ edge_of 0 1 ∷ []
unfolding edges_from all_where add_edge add_node has_key find_node lookup insert first_where edge_id
a_first = refl

three_starts : edges_from 0 three ≢ []
three_starts e = absurd (cc (e, a_first))

announced_example :
    (cs : List TestCase) × (fuzz_all three two_mutations (λ n. 2) 1 3 0 (some 1)
      ≡ some (some (length cs), cs))
announced_example =
    fuzz_all-announced three two_mutations (λ n. 2) 0 rank 0 1 three_starts
      (Reachable-IsWellFormed three-Reachable).0 three-Descends (omega arith)
      (λ n. ((tt, (tt, tt)), refl))
