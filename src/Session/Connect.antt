-- ===== src/Session/Connect.antt =====
-- `Session.add_node` and `Session.connect` (boofuzz/sessions/session.py) on the session's graph. A
-- request is known by its name, so one object stands for each name.
pub mod Numbered
use boofuzz.Base.{
  ℕ, ◌+◌, ◌≡◌, ◌≢◌, refl, ap, sym, ◌∙◌, Bool, true, false, List, [], ◌∷◌, ◌++◌, Option, none, some,
  ◌>>=◌, if◌then◌else◌, length, arith, bind_cases, some_inj, subst,
}
use boofuzz.Base.Dict.{lookup, insert}
use boofuzz.Base.Text.{Text, text_eq, text_mem, codes}
use boofuzz.Graph.{
  Node, Edge, edge_of, Graph, empty_graph, values, first_where, has_key, find_node_where, found,
  add_node, add_edge,
}

-- What is connected: the root, a request, or the name of one.
pub data Endpoint : Type 0 where
  root : Endpoint
  request : Text → Endpoint
  named : Text → Endpoint

abbrev pub root_name : Text
root_name = codes "__ROOT_NODE__"

-- `Session.add_node`, for a node of this name.
unfoldable pub add_request : Text → Graph → Graph
add_request name g =
    add_node (record { id = length g.nodes; number = length g.nodes; name = name }) g

-- A session's graph at the start: the root alone.
abbrev pub root_graph : Graph
root_graph = add_request root_name empty_graph

-- `find_node("name", name)`.
abbrev pub find_name : Text → Graph → Option Node
find_name name g = find_node_where (λ n. text_eq n.name name) g

-- The name of an end; one that is given by a name that no node has is None, and then an
-- AttributeError.
abbrev pub end_name : Endpoint → Graph → Option Text
end_name root g = some root_name
end_name (request name) g = some name
end_name (named name) g = find_name name g >>= λ n. some n.name

-- `if self.find_node("name", ...) is None: self.add_node(...)`.
unfoldable pub ensure : Text → Graph → Graph
ensure name g = if found (find_name name g) then g else add_request name g

abbrev pub ensure_source : Endpoint → Text → Graph → Graph
ensure_source root name g = g
ensure_source (request n) name g = ensure name g
ensure_source (named n) name g = ensure name g

-- `Connection(src.id, dst.id, callback)` and `add_edge`.
abbrev pub join_nodes : Text → Text → Graph → Option Graph
join_nodes src dst g = do
  s ← find_name src g
  d ← find_name dst g
  some (add_edge (edge_of s.id d.id) true g)

-- `Session.connect`; with one argument it is called with the root as the source.
unfoldable pub connect : Endpoint → Endpoint → Graph → Option Graph
connect src dst g = do
  s ← end_name src g
  d ← end_name dst g
  join_nodes s d (ensure d (ensure_source src s g))
