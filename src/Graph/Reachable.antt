-- ===== src/Graph/Reachable.antt =====
-- Every operation of a graph keeps it well formed.
use boofuzz.Base.{
  ℕ, ◌≡◌, refl, inl, inr, Bool, true, false, List, [], ◌∷◌, Option, none, some, if◌then◌else◌,
  Bool-cases, Option-cases, subst, ◌<◌, ◌^◌, zero, suc, arith,
}
use boofuzz.Base.Dict.{lookup, delete}
use boofuzz.Graph.{
  Node, Edge, edge_id, edge_of, Graph, empty_graph, values, has_key, find_node, find_edge, found,
  add_node, has_ends, add_edge, del_edge, del_edge_between, del_node, del_nodes, del_edges_between,
  graph_sub, intersect_nodes, intersect_edges, graph_intersect, redirect_edges, update_node_id,
  edges_at, or_else,
}
use boofuzz.Graph.Keys.{
  insert-IsKeyed, delete-IsKeyed, IsIdentified, IsEdges, insert-IsEdges, delete-IsEdges,
  IsWellFormed, first_where-IsKeyed,
}

redirect_edges-IsEdges :
    (current_id new_id : ℕ) (es : List Edge) (m : List (ℕ × Edge))
    → IsEdges m
    → IsEdges (redirect_edges current_id new_id es m)
unfolding redirect_edges
redirect_edges-IsEdges a b [] m h = h
redirect_edges-IsEdges a b (e ∷ es) m h =
    redirect_edges-IsEdges a b es _
      (insert-IsEdges _ (delete e.id m) refl (delete-IsEdges e.id m h))

add_node-IsWellFormed : (n : Node) (g : Graph) → IsWellFormed g → IsWellFormed (add_node n g)
unfolding add_node
add_node-IsWellFormed n g h = elim (Bool-cases (has_key n.id g.nodes)) [
  | inl present ↦ rw present h
  | inr absent ↦ rw absent (insert-IsKeyed (λ n. n.id) n.id _ g.nodes refl h.0, h.1)
]

add_edge-IsWellFormed :
    (e : Edge) (dups : Bool) (g : Graph)
    → IsIdentified e
    → IsWellFormed g
    → IsWellFormed (add_edge e dups g)
unfolding add_edge
add_edge-IsWellFormed e dups g i h =
    elim (Bool-cases (if dups then has_key e.id g.edges else false)) [
      | inl present ↦ rw present h
      | inr absent ↦ elim (Bool-cases (has_ends e g)) [
        | inl ends ↦ rw (absent, ends) (h.0, insert-IsEdges e g.edges i h.1)
        | inr no_ends ↦ rw (absent, no_ends) h
      ]
    ]

del_nodes-IsWellFormed :
    (ns : List Node) (g : Graph) → IsWellFormed g → IsWellFormed (del_nodes ns g)
unfolding del_nodes del_node
del_nodes-IsWellFormed [] g h = h
del_nodes-IsWellFormed (n ∷ ns) g h =
    del_nodes-IsWellFormed ns _ (delete-IsKeyed (λ n. n.id) n.id g.nodes h.0, h.1)

del_edges-IsWellFormed :
    (es : List Edge) (g : Graph) → IsWellFormed g → IsWellFormed (del_edges_between es g)
unfolding del_edges_between del_edge_between
del_edges-IsWellFormed [] g h = h
del_edges-IsWellFormed (e ∷ es) g h =
    del_edges-IsWellFormed es _ (h.0, delete-IsEdges (edge_id e.src e.dst) g.edges h.1)

if_IsWellFormed :
    (b : Bool) (g g' : Graph)
    → IsWellFormed g
    → IsWellFormed g'
    → IsWellFormed (if b then g else g')
if_IsWellFormed true g g' h h' = h
if_IsWellFormed false g g' h h' = h'

intersect_nodes-IsWellFormed :
    (other : Graph) (ns : List Node) (g : Graph)
    → IsWellFormed g
    → IsWellFormed (intersect_nodes other ns g)
unfolding intersect_nodes del_node
intersect_nodes-IsWellFormed other [] g h = h
intersect_nodes-IsWellFormed other (n ∷ ns) g h = intersect_nodes-IsWellFormed other ns _ (
    if_IsWellFormed (found (find_node n.id other)) g (del_node n.id g) h
      (delete-IsKeyed (λ n. n.id) n.id g.nodes h.0, h.1))

update_node_id-IsWellFormed :
    (current_id new_id : ℕ) (g : Graph)
    → IsWellFormed g
    → IsWellFormed (update_node_id current_id new_id g)
unfolding update_node_id
update_node_id-IsWellFormed a b g h = elim (Option-cases (lookup a g.nodes)) [
  | inl missing ↦ rw (missing, update_node_id) h
  | inr (node, e) ↦
      rw (e, update_node_id)
        (
          insert-IsKeyed (λ n. n.id) b _ (delete a g.nodes) refl
              (delete-IsKeyed (λ n. n.id) a g.nodes h.0),
          redirect_edges-IsEdges a b (edges_at a g) g.edges h.1,
        )
]

some_inj : {a b : Graph} → some a ≡ some b → a ≡ b
some_inj e = cc

del_edge-IsWellFormed :
    (k : ℕ) (g g' : Graph) → del_edge k g ≡ some g' → IsWellFormed g → IsWellFormed g'
unfolding del_edge
del_edge-IsWellFormed zero g g' e h = absurd cc
del_edge-IsWellFormed (suc k) g g' e h =
    subst IsWellFormed (some_inj e) (h.0, delete-IsEdges (suc k) g.edges h.1)

intersect_edges-IsWellFormed :
    (other : Graph) (es : List Edge) (g g' : Graph)
    → intersect_edges other es g ≡ some g'
    → IsWellFormed g
    → IsWellFormed g'
unfolding intersect_edges
intersect_edges-IsWellFormed other [] g g' e h = subst IsWellFormed (some_inj e) h
intersect_edges-IsWellFormed other (x ∷ es) g g' e h =
    elim (Bool-cases (found (find_edge x.id other))) [
      | inl kept ↦ intersect_edges-IsWellFormed other es g g' (rw kept at e) h
      | inr gone ↦ elim (Option-cases (del_edge x.id g)) [
        | inl fails ↦ absurd (none_some (rw (gone, fails) at e))
        | inr (g1, runs) ↦
            intersect_edges-IsWellFormed other es g1 g' (rw (gone, runs) at e)
              (del_edge-IsWellFormed x.id g g1 runs h)
      ]
    ]
  where
    none_some : {a : Graph} → none ≡ some a → ⊥
    none_some e = cc

-- The graphs that the operations build of nodes and edges of their own, each edge by its constructor.
pub data Reachable : Graph → Type 0 where
  start : Reachable empty_graph
  node_added : {g : Graph} → (n : Node) → Reachable g → Reachable (add_node n g)
  edge_added :
      {g : Graph}
      → (src dst : ℕ) (prevent_dups : Bool) → Reachable g
      → Reachable (add_edge (edge_of src dst) prevent_dups g)
  node_deleted : {g : Graph} → (id : ℕ) → Reachable g → Reachable (del_node id g)
  edge_deleted : {g g' : Graph} → (id : ℕ) → del_edge id g ≡ some g' → Reachable g → Reachable g'
  edge_between_deleted :
      {g : Graph} → (src dst : ℕ) → Reachable g → Reachable (del_edge_between src dst g)
  node_renamed :
      {g : Graph}
      → (current_id new_id : ℕ) → Reachable g
      → Reachable (update_node_id current_id new_id g)
  subtracted : {g : Graph} → (other : Graph) → Reachable g → Reachable (graph_sub other g)
  intersected :
      {g g' : Graph}
      → (other : Graph) → graph_intersect other g ≡ some g'
      → Reachable g
      → Reachable g'

-- In every graph that adding, deleting, renaming, subtracting and intersecting build of nodes and
-- edges that no other graph holds, each node and edge stands under its identifier and none twice, and
-- an edge has the identifier of its ends.
pub Reachable-IsWellFormed : {g : Graph} → Reachable g → IsWellFormed g
unfolding graph_sub graph_intersect del_node del_edge_between
Reachable-IsWellFormed start = (tt, (tt, tt))
Reachable-IsWellFormed (node_added {g} n r) = add_node-IsWellFormed n g (Reachable-IsWellFormed r)
Reachable-IsWellFormed (edge_added {g} src dst dups r) =
    add_edge-IsWellFormed (edge_of src dst) dups g refl (Reachable-IsWellFormed r)
Reachable-IsWellFormed (node_deleted {g} id r) =
    let h = Reachable-IsWellFormed r in (delete-IsKeyed (λ n. n.id) id g.nodes h.0, h.1)
Reachable-IsWellFormed (edge_deleted {g} {g'} id e r) =
    del_edge-IsWellFormed id g g' e (Reachable-IsWellFormed r)
Reachable-IsWellFormed (edge_between_deleted {g} src dst r) =
    let h = Reachable-IsWellFormed r in (h.0, delete-IsEdges (edge_id src dst) g.edges h.1)
Reachable-IsWellFormed (node_renamed {g} a b r) =
    update_node_id-IsWellFormed a b g (Reachable-IsWellFormed r)
Reachable-IsWellFormed (subtracted {g} other r) =
    del_edges-IsWellFormed (values other.edges) _
      (del_nodes-IsWellFormed (values other.nodes) g (Reachable-IsWellFormed r))
Reachable-IsWellFormed (intersected {g} {g'} other e r) =
    intersect_edges-IsWellFormed other (values g.edges) _ g' e
      (intersect_nodes-IsWellFormed other (values g.nodes) g (Reachable-IsWellFormed r))

or_else_self : {V : Type 0} (o : Option V) → or_else o o ≡ o
or_else_self none = refl
or_else_self (some v) = refl

-- In every graph that the operations build, the search for an identifier finds what is stored under
-- it as a key: the scan that follows a missing key never finds anything.
find-lookup :
    {g : Graph}
    → Reachable g
    → (id : ℕ) → (find_node id g ≡ lookup id g.nodes) × (find_edge id g ≡ lookup id g.edges)
unfolding find_node find_edge
find-lookup {g} r id =
    let h = Reachable-IsWellFormed r in
    (
      rw (first_where-IsKeyed (λ n. n.id) id g.nodes h.0) (or_else_self (lookup id g.nodes)),
      rw (first_where-IsKeyed (λ e. e.id) id g.edges h.1.0) (or_else_self (lookup id g.edges)),
    )

-- An edge's ends can be read off its identifier, if the destinations have 32 bits.
pub edge_id_injective :
    (src dst src' dst' : ℕ)
    → dst < 2 ^ 32
    → dst' < 2 ^ 32
    → edge_id src dst ≡ edge_id src' dst'
    → (src ≡ src') × (dst ≡ dst')
unfolding edge_id
edge_id_injective src dst src' dst' h h' e = (omega arith, omega arith)
