-- ===== src/Graph/Subtract.antt =====
-- What graph_sub leaves of the nodes.
use boofuzz.Base.{
  ℕ, ◌≡◌, refl, ap, sym, ◌∙◌, inl, inr, Bool, true, false, List, [], ◌∷◌, Option, none, ◌==◌, ◌||◌,
  if◌then◌else◌, Bool-cases, ==_iff,
}
use boofuzz.Base.Dict.{lookup, delete}
use boofuzz.Graph.{
  Node, Edge, Graph, values, del_node, del_nodes, del_edge_between, del_edges_between, graph_sub,
}
use boofuzz.Graph.Keys.{IsNodes, delete-IsKeyed, lookup-delete_self, lookup-delete_other}
use boofuzz.Graph.Reachable.{Reachable, Reachable-IsWellFormed}

-- Does a node of the list have the identifier?
abbrev pub names_id : ℕ → List Node → Bool
names_id id [] = false
names_id id (n ∷ ns) = (n.id == id) || names_id id ns

lookup_gone :
    (k j : ℕ) (m : List (ℕ × Node))
    → IsNodes m
    → lookup j (delete k m) ≡ (if k == j then none else lookup j m)
lookup_gone k j m h = elim (Bool-cases (k == j)) [
  | inl here ↦ rw here (
      ap (λ (i : ℕ). lookup i (delete k m)) (sym ((==_iff k j).0 here))
      ∙ lookup-delete_self (λ n. n.id) k m h)
  | inr other ↦ rw other (lookup-delete_other (λ n. n.id) k j m other)
]

if_or :
    (b c : Bool) (o : Option Node)
    → (if c then none else (if b then none else o)) ≡ (if b || c then none else o)
if_or true true o = refl
if_or true false o = refl
if_or false c o = refl

lookup-del_nodes :
    (ns : List Node) (g : Graph) (id : ℕ)
    → IsNodes g.nodes
    → lookup id (del_nodes ns g).nodes ≡ (if names_id id ns then none else lookup id g.nodes)
unfolding del_nodes del_node
lookup-del_nodes [] g id h = refl
lookup-del_nodes (n ∷ ns) g id h =
    lookup-del_nodes ns _ id (delete-IsKeyed (λ n. n.id) n.id g.nodes h)
    ∙ (ap (λ (o : Option Node). if names_id id ns then none else o) (lookup_gone n.id id g.nodes h)
        ∙ if_or (n.id == id) (names_id id ns) (lookup id g.nodes))

nodes-del_edges : (es : List Edge) (g : Graph) → (del_edges_between es g).nodes ≡ g.nodes
unfolding del_edges_between del_edge_between
nodes-del_edges [] g = refl
nodes-del_edges (e ∷ es) g = nodes-del_edges es _

-- Subtracting a graph from one that the operations built removes exactly the nodes whose
-- identifiers the other graph's nodes have.
pub lookup-graph_sub :
    {g : Graph}
    → Reachable g
    → (other : Graph) (id : ℕ)
    → lookup id (graph_sub other g).nodes
      ≡ (if names_id id (values other.nodes) then none else lookup id g.nodes)
unfolding graph_sub
lookup-graph_sub {g} r other id =
    ap (lookup id) (nodes-del_edges (values other.edges) _)
    ∙ lookup-del_nodes (values other.nodes) g id (Reachable-IsWellFormed r).0
