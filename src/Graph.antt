-- ===== src/Graph.antt =====
-- boofuzz/pgraph: `Graph` with its nodes, edges and clusters. Identifiers are numbers, and the
-- attributes that only draw a graph are left out. Nodes and edges are values here, as they behave
-- while their objects belong to a single graph. graph_cat, which hands the objects of one graph to
-- another, is not modelled.
pub mod Keys
pub mod Reachable
pub mod Subtract
use boofuzz.Base.{
  ℕ, zero, suc, ◌+◌, ◌*◌, ◌^◌, Bool, true, false, ◌||◌, List, [], ◌∷◌, ◌++◌, Option, none, some,
  ◌==◌, if◌then◌else◌, length, map, ◌>>=◌,
}
use boofuzz.Base.Dict.{lookup, insert, delete}
use boofuzz.Primitives.BitField.{sort}

-- A node with its `name`, which a request has.
pub record Node : Type 0 where
  pub id : ℕ
  pub number : ℕ
  pub name : List ℕ

pub record Edge : Type 0 where
  pub id : ℕ
  pub src : ℕ
  pub dst : ℕ

-- `(src << 32) + dst`.
unfoldable pub edge_id : ℕ → ℕ → ℕ
edge_id src dst = src * 2 ^ 32 + dst

-- The constructor of an edge.
abbrev pub edge_of : ℕ → ℕ → Edge
edge_of src dst = record { id = edge_id src dst; src = src; dst = dst }

pub record Cluster : Type 0 where
  pub id : ℕ
  pub nodes : List Node

pub record Graph : Type 0 where
  pub clusters : List Cluster
  pub edges : List (ℕ × Edge)
  pub nodes : List (ℕ × Node)

-- The constructor of a graph.
abbrev pub empty_graph : Graph
empty_graph = record { clusters = []; edges = []; nodes = [] }

-- `d.values()`.
abbrev pub values : {V : Type 0} → List (ℕ × V) → List V
values [] = []
values ((k, v) ∷ m) = v ∷ values m

-- The first value that passes a test, as the loops that search for an attribute find it.
unfoldable pub first_where : {V : Type 0} → (V → Bool) → List V → Option V
first_where p [] = none
first_where p (v ∷ vs) = if p v then some v else first_where p vs

unfoldable pub all_where : {V : Type 0} → (V → Bool) → List V → List V
all_where p [] = []
all_where p (v ∷ vs) = if p v then v ∷ all_where p vs else all_where p vs

unfoldable pub has_key : {V : Type 0} → ℕ → List (ℕ × V) → Bool
unfolding lookup
has_key k m = elim (lookup k m) [ none ↦ false | some v ↦ true ]

abbrev pub or_else : {V : Type 0} → Option V → Option V → Option V
or_else none other = other
or_else (some v) other = some v

-- `find_node("id", value)`: the node under that key, or else the first with that attribute.
unfoldable pub find_node : ℕ → Graph → Option Node
unfolding lookup first_where
find_node value g =
    or_else (lookup value g.nodes) (first_where (λ n. n.id == value) (values g.nodes))

-- `find_node` on another attribute, by the test of its value.
abbrev pub find_node_where : (Node → Bool) → Graph → Option Node
find_node_where has_value g = first_where has_value (values g.nodes)

-- `find_edge("id", value)`.
unfoldable pub find_edge : ℕ → Graph → Option Edge
unfolding lookup first_where
find_edge value g =
    or_else (lookup value g.edges) (first_where (λ e. e.id == value) (values g.edges))

abbrev pub found : {V : Type 0} → Option V → Bool
found none = false
found (some v) = true

unfoldable pub add_node : Node → Graph → Graph
unfolding has_key insert
add_node node g =
    let node' = record node { number = length g.nodes } in
    if has_key node.id g.nodes then g else record g { nodes = insert node.id node' g.nodes }

abbrev pub has_ends : Edge → Graph → Bool
has_ends e g = if found (find_node e.src g) then found (find_node e.dst g) else false

unfoldable pub add_edge : Edge → Bool → Graph → Graph
unfolding has_key insert find_node
add_edge e prevent_dups g =
    if (if prevent_dups then has_key e.id g.edges else false)
    then g
    else if has_ends e g
    then record g { edges = insert e.id e g.edges }
    else g

-- `del_edge` with an identifier; 0 counts as none given, and then `None << 32` is a TypeError.
unfoldable pub del_edge : ℕ → Graph → Option Graph
unfolding delete
del_edge zero g = none
del_edge (suc id) g = some (record g { edges = delete (suc id) g.edges })

-- `del_edge` with a source and a destination.
unfoldable pub del_edge_between : ℕ → ℕ → Graph → Graph
unfolding delete edge_id
del_edge_between src dst g = record g { edges = delete (edge_id src dst) g.edges }

unfoldable pub del_node : ℕ → Graph → Graph
unfolding delete
del_node id g = record g { nodes = delete id g.nodes }

unfoldable pub edges_from : ℕ → Graph → List Edge
unfolding all_where
edges_from id g = all_where (λ e. e.src == id) (values g.edges)

unfoldable pub edges_to : ℕ → Graph → List Edge
unfolding all_where
edges_to id g = all_where (λ e. e.dst == id) (values g.edges)

unfoldable pub del_nodes : List Node → Graph → Graph
unfolding del_node
del_nodes [] g = g
del_nodes (n ∷ ns) g = del_nodes ns (del_node n.id g)

unfoldable pub del_edges_between : List Edge → Graph → Graph
unfolding del_edge_between
del_edges_between [] g = g
del_edges_between (e ∷ es) g = del_edges_between es (del_edge_between e.src e.dst g)

-- graph_sub, which is also del_graph.
unfoldable pub graph_sub : Graph → Graph → Graph
unfolding del_nodes del_edges_between
graph_sub other g = del_edges_between (values other.edges) (del_nodes (values other.nodes) g)

-- graph_intersect.
unfoldable pub intersect_nodes : Graph → List Node → Graph → Graph
unfolding find_node del_node
intersect_nodes other [] g = g
intersect_nodes other (n ∷ ns) g =
    intersect_nodes other ns (if found (find_node n.id other) then g else del_node n.id g)

unfoldable pub intersect_edges : Graph → List Edge → Graph → Option Graph
unfolding find_edge del_edge
intersect_edges other [] g = some g
intersect_edges other (e ∷ es) g =
    (if found (find_edge e.id other) then some g else del_edge e.id g) >>= intersect_edges other es

unfoldable pub graph_intersect : Graph → Graph → Option Graph
unfolding intersect_nodes intersect_edges
graph_intersect other g =
    intersect_edges other (values g.edges) (intersect_nodes other (values g.nodes) g)

abbrev redirect : ℕ → ℕ → Edge → Edge
redirect current_id new_id e =
    edge_of (if e.src == current_id then new_id else e.src)
      (if e.dst == current_id then new_id else e.dst)

-- The loop of update_node_id over the edges at the node.
unfoldable pub redirect_edges : ℕ → ℕ → List Edge → List (ℕ × Edge) → List (ℕ × Edge)
unfolding insert delete
redirect_edges current_id new_id [] edges = edges
redirect_edges current_id new_id (e ∷ es) edges =
    let e' = redirect current_id new_id e in
    redirect_edges current_id new_id es (insert e'.id e' (delete e.id edges))

-- The edges at a node.
abbrev pub edges_at : ℕ → Graph → List Edge
edges_at id g = all_where (λ e. (e.src == id) || (e.dst == id)) (values g.edges)

unfoldable pub update_node_id : ℕ → ℕ → Graph → Graph
unfolding lookup insert delete all_where redirect_edges
update_node_id current_id new_id g = elim (lookup current_id g.nodes) [
  | none ↦ g
  | some node ↦ record g {
    nodes = insert new_id (record node { id = new_id }) (delete current_id g.nodes);
    edges = redirect_edges current_id new_id (edges_at current_id g) g.edges;
  }
]
