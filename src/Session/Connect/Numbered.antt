-- ===== src/Session/Connect/Numbered.antt =====
-- The nodes of a session's graph are numbered in order and have different names.
use boofuzz.Base.{
  ℕ, ◌+◌, ◌≤◌, ◌≡◌, refl, ap, sym, ◌∙◌, inl, inr, Bool, true, false, ◌||◌, List, [], ◌∷◌, ◌++◌,
  Option, none, some, if◌then◌else◌, ◌==◌, length, arith, bind_cases, some_inj, subst, Bool-cases,
}
use boofuzz.Base.Dict.{lookup, insert}
use boofuzz.Base.Text.{Text, text_eq, text_mem}
use boofuzz.Blocks.Build.Unique.{AreDistinct, AreDistinct-append}
use boofuzz.Graph.{
  Node, Edge, edge_of, Graph, values, first_where, has_key, found, add_node, has_ends, add_edge,
}
use boofuzz.Session.Connect.{
  Endpoint, root, request, named, add_request, root_graph, find_name, end_name, ensure,
  ensure_source, connect,
}

-- The nodes under the numbers from `k` on, in order, each with its number as identifier.
abbrev pub IsNumbered : ℕ → List (ℕ × Node) → Type 0
IsNumbered k [] = Unit
IsNumbered k ((i, n) ∷ m) = (i ≡ k) × (n.id ≡ k) × IsNumbered (k + 1) m

abbrev pub node_names : List (ℕ × Node) → List Text
node_names [] = []
node_names ((i, n) ∷ m) = n.name ∷ node_names m

abbrev pub IsSessionGraph : Graph → Type 0
IsSessionGraph g = IsNumbered 0 g.nodes × AreDistinct (node_names g.nodes)

missing :
    (name : Text) (m : List (ℕ × Node))
    → found (first_where (λ n. text_eq n.name name) (values m)) ≡ false
    → text_mem name (node_names m) ≡ false
unfolding first_where text_mem
missing name [] h = refl
missing name ((i, n) ∷ m) h = decide (text_eq n.name name) h (missing name m)
  where
    decide :
        (b : Bool)
        → found (if b then some n else first_where (λ n'. text_eq n'.name name) (values m)) ≡ false
        → (found (first_where (λ n'. text_eq n'.name name) (values m)) ≡ false
            → text_mem name (node_names m) ≡ false)
        → (b || text_mem name (node_names m)) ≡ false
    decide true e ih = absurd cc
    decide false e ih = ih e

below_key : (i key : ℕ) → i + 1 ≤ key → (i == key) ≡ false
below_key i key lt = ground arith

lookup_fresh :
    (k key : ℕ) (m : List (ℕ × Node)) → IsNumbered k m → k + length m ≤ key → lookup key m ≡ none
unfolding lookup
lookup_fresh k key [] h le = refl
lookup_fresh k key ((i, n) ∷ m) h le =
    rw (below_key i key (omega (arith, h.0, le)))
      (lookup_fresh (k + 1) key m h.2 (omega (arith, le)))

fresh_key :
    (k key : ℕ) (m : List (ℕ × Node)) → IsNumbered k m → k + length m ≤ key → has_key key m ≡ false
unfolding has_key
fresh_key k key m h le =
    ap (λ (o : Option Node). elim o as (λ x. Bool) [ none ↦ false | some v ↦ true ])
      (lookup_fresh k key m h le)

insert_fresh :
    (k key : ℕ) (v : Node) (m : List (ℕ × Node))
    → IsNumbered k m
    → k + length m ≤ key
    → insert key v m ≡ m ++ (key, v) ∷ []
unfolding insert
insert_fresh k key v [] h le = refl
insert_fresh k key v ((i, n) ∷ m) h le = rw (other i key (omega (arith, h.0, le))) (
    ap (λ (l : List (ℕ × Node)). (i, n) ∷ l) (insert_fresh (k + 1) key v m h.2 (omega (arith, le))))
  where
    other : (i key : ℕ) → i + 1 ≤ key → (i == key) ≡ false
    other i key lt = ground arith

append-IsNumbered :
    (k key : ℕ) (v : Node) (m : List (ℕ × Node))
    → IsNumbered k m
    → key ≡ k + length m
    → v.id ≡ key
    → IsNumbered k (m ++ (key, v) ∷ [])
append-IsNumbered k key v [] h e id = (e ∙ omega arith, id ∙ (e ∙ omega arith), tt)
append-IsNumbered k key v ((i, n) ∷ m) h e id =
    (h.0, h.1, append-IsNumbered (k + 1) key v m h.2 (omega (arith, e)) id)

node_names-append :
    (m : List (ℕ × Node)) (i : ℕ) (n : Node)
    → node_names (m ++ (i, n) ∷ []) ≡ node_names m ++ n.name ∷ []
node_names-append [] i n = refl
node_names-append ((j, o) ∷ m) i n = ap (λ (l : List Text). o.name ∷ l) (node_names-append m i n)

add_request-IsSessionGraph :
    (name : Text) (g : Graph)
    → text_mem name (node_names g.nodes) ≡ false
    → IsSessionGraph g
    → IsSessionGraph (add_request name g)
unfolding add_request add_node
add_request-IsSessionGraph name g absent h =
    rw (fresh_key 0 (length g.nodes) g.nodes h.0 (omega arith)) (
      subst (λ m. IsNumbered 0 m × AreDistinct (node_names m))
        (sym (insert_fresh 0 (length g.nodes) added g.nodes h.0 (omega arith)))
        (
          append-IsNumbered 0 (length g.nodes) added g.nodes h.0 (omega arith) refl,
          subst AreDistinct (sym (node_names-append g.nodes (length g.nodes) added))
              (AreDistinct-append name (node_names g.nodes) h.1 absent),
        ))
  where
    added : Node
    added = record { id = length g.nodes; number = length g.nodes; name = name }

ensure-IsSessionGraph :
    (name : Text) (g : Graph) → IsSessionGraph g → IsSessionGraph (ensure name g)
unfolding ensure
ensure-IsSessionGraph name g h = elim (Bool-cases (found (find_name name g))) [
  | inl present ↦ rw present h
  | inr absent ↦ rw absent (add_request-IsSessionGraph name g (missing name g.nodes absent) h)
]

ensure_source-IsSessionGraph :
    (src : Endpoint) (name : Text) (g : Graph)
    → IsSessionGraph g
    → IsSessionGraph (ensure_source src name g)
ensure_source-IsSessionGraph root name g h = h
ensure_source-IsSessionGraph (request n) name g h = ensure-IsSessionGraph name g h
ensure_source-IsSessionGraph (named n) name g h = ensure-IsSessionGraph name g h

add_edge-nodes : (e : Edge) (g : Graph) → (add_edge e true g).nodes ≡ g.nodes
unfolding add_edge
add_edge-nodes e g = decide (has_key e.id g.edges) (has_ends e g)
  where
    decide :
        (a b : Bool)
        → (if a then g else if b then record g { edges = insert e.id e g.edges } else g).nodes
          ≡ g.nodes
    decide true b = refl
    decide false true = refl
    decide false false = refl

connect-IsSessionGraph :
    (src dst : Endpoint) (g g' : Graph)
    → connect src dst g ≡ some g'
    → IsSessionGraph g
    → IsSessionGraph g'
unfolding connect
connect-IsSessionGraph src dst g g' e h =
    let (s, es, e₁) = bind_cases (end_name src g) _ g' e in
    let (d, ed, e₂) = bind_cases (end_name dst g) _ g' e₁ in
    let grown = ensure d (ensure_source src s g) in
    let sound =
      ensure-IsSessionGraph d (ensure_source src s g) (ensure_source-IsSessionGraph src s g h) in
    let (i, ei, e₃) = bind_cases (find_name s grown) _ g' e₂ in
    let (j, ej, e₄) = bind_cases (find_name d grown) _ g' e₃ in
    subst (λ m. IsNumbered 0 m × AreDistinct (node_names m))
      (sym (add_edge-nodes (edge_of i.id j.id) grown) ∙ ap (λ (x : Graph). x.nodes) (some_inj e₄))
      sound

-- The graphs that connects build from the root alone.
pub data Connected : Graph → Type 0 where
  alone : Connected root_graph
  connected :
      {g g' : Graph}
      → (src dst : Endpoint) → connect src dst g ≡ some g'
      → Connected g
      → Connected g'

alone_lem : IsSessionGraph root_graph
unfolding add_request add_node insert has_key lookup text_mem
alone_lem = ((refl, refl, tt), (refl, tt))

-- In every graph that connects build, the nodes are numbered from 0 on in the order in which they
-- were added, the root first, each under its number, and no two of them have the same name.
pub Connected-IsSessionGraph : {g : Graph} → Connected g → IsSessionGraph g
Connected-IsSessionGraph alone = alone_lem
Connected-IsSessionGraph (connected {g} {g'} src dst e c) =
    connect-IsSessionGraph src dst g g' e (Connected-IsSessionGraph c)
