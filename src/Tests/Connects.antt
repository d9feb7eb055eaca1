-- ===== src/Tests/Connects.antt =====
-- A session's graph at concrete inputs: two requests, the second one behind the first.
use boofuzz.Base.{◌≡◌, refl, [], ◌∷◌, none, some}
use boofuzz.Base.Dict.{lookup, insert}
use boofuzz.Base.Text.{codes, text_eq}
use boofuzz.Graph.{edge_of, Graph, first_where, has_key, add_node, add_edge}
use boofuzz.Session.Connect.{root, request, named, add_request, root_graph, ensure, connect}
use boofuzz.Session.Connect.Numbered.{IsSessionGraph, alone, connected, Connected-IsSessionGraph}

abbrev login_graph : Graph
login_graph = record {
  nodes =
      (0, record { id = 0; number = 0; name = codes "__ROOT_NODE__" })
      ∷ (1, record { id = 1; number = 1; name = codes "login" })
      ∷ [];
  edges = ((edge_of 0 1).id, edge_of 0 1) ∷ [];
  clusters = [];
}

login_connected : connect root (request (codes "login")) root_graph ≡ some login_graph
unfolding connect ensure add_request add_node add_edge insert has_key lookup first_where text_eq
login_connected = refl

unknown_name : connect root (named (codes "quit")) root_graph ≡ none
unfolding connect add_request add_node insert has_key lookup first_where text_eq
unknown_name = refl

Connected-IsSessionGraph_example : IsSessionGraph login_graph
Connected-IsSessionGraph_example =
    Connected-IsSessionGraph (connected root (request (codes "login")) login_connected alone)
