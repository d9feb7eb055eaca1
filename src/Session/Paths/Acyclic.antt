-- ===== src/Session/Paths/Acyclic.antt =====
-- The iteration and the count on a session's graph, which has no circle.
use boofuzz.Base.{
  ℕ, zero, suc, ◌<◌, ◌≡◌, refl, ap, inl, inr, List, [], ◌∷◌, ◌++◌, Option, some, ◌==◌, arith, All,
  Bool-cases,
}
use boofuzz.Base.Dict.{lookup}
use boofuzz.Graph.{Node, Edge, Graph, edges_from, values, all_where}
use boofuzz.Graph.Keys.{IsNodes, All-all_where}
use boofuzz.Session.Paths.{pop, iterate_edges, iterate_paths}
use boofuzz.Session.Paths.Walk.{
  IsIteration, IsIteration-cons, IsIteration-nil, pop_append, id_of_lookup,
}

abbrev Paths : Type 0
Paths = List (List Edge)

module _ (g : Graph) (rank : ℕ → ℕ) where
  -- Each edge leads to a node of the graph with a lower rank.
  abbrev pub Descends : Edge → Type 0
  Descends e = ((n : Node) × (lookup e.dst g.nodes ≡ some n)) × (rank e.dst < rank e.src)

module _ (g : Graph) (keyed : IsNodes g.nodes) (rank : ℕ → ℕ) where
  abbrev Visited : (ℕ → List Edge → Option (Paths × List Edge)) → ℕ → Type 0
  Visited iterate id =
      (path : List Edge)
      → (ys : Paths) × (iterate id path ≡ some (ys, pop path))
        × IsIteration g path (edges_from id g) ys

  abbrev Leads : ℕ → Edge → Type 0
  Leads fuel e = ((n : Node) × (lookup e.dst g.nodes ≡ some n)) × (rank e.dst < fuel)

  iterate_edges_lem :
      (iterate : ℕ → List Edge → Option (Paths × List Edge)) (fuel : ℕ)
      → ((id : ℕ) → rank id < fuel → Visited iterate id)
      → (es path : List Edge) → All (Leads fuel) es
      → (ys : Paths) × (iterate_edges g iterate es path ≡ some (ys, path))
        × IsIteration g path es ys
  unfolding iterate_edges
  iterate_edges_lem iterate fuel visit [] path leads = ([], refl, IsIteration-nil g path)
  iterate_edges_lem iterate fuel visit (e ∷ es) path leads =
      let ((n, stored), low) = leads.0 in
      let (inner, runs, first) = visit e.dst low (path ++ e ∷ []) in
      let (rest, runs', others) = iterate_edges_lem iterate fuel visit es path leads.1 in
      (
        (path ++ e ∷ []) ∷ (inner ++ rest),
        rw (stored, id_of_lookup e.dst g.nodes n keyed stored, runs, pop_append path e, runs'),
        IsIteration-cons g e es path inner rest first others,
      )

  Leads-of :
      (es : List Edge) (id fuel : ℕ)
      → rank id < suc fuel
      → All (Descends g rank) es
      → All (λ e. e.src ≡ id) es
      → All (Leads fuel) es
  Leads-of [] id fuel h d s = tt
  Leads-of (e ∷ es) id fuel h d s =
      ((d.0.0, omega (arith, d.0.1, ap rank s.0)), Leads-of es id fuel h d.1 s.1)

  edges_from_src :
      (id : ℕ) (es : List Edge) → All (λ e. e.src ≡ id) (all_where (λ e. e.src == id) es)
  unfolding all_where
  edges_from_src id [] = tt
  edges_from_src id (e ∷ es) = elim (Bool-cases (e.src == id)) [
    | inl leaves ↦ rw leaves (ground arith, edges_from_src id es)
    | inr other ↦ rw other (edges_from_src id es)
  ]

  module _ (acyclic : All (Descends g rank) (values g.edges)) where
    Leads-from : (id fuel : ℕ) → rank id < suc fuel → All (Leads fuel) (edges_from id g)
    unfolding edges_from
    Leads-from id fuel h =
        Leads-of (edges_from id g) id fuel h
          (All-all_where (Descends g rank) (λ e. e.src == id) (values g.edges) acyclic)
          (edges_from_src id (values g.edges))

    -- A graph whose nodes stand under their identifiers, and in which each edge leads to a node of
    -- the graph with a lower rank: with more fuel than the start's rank the iteration ends, takes
    -- from the path that it was given the last edge, and yields exactly that path extended by each
    -- walk that has an edge.
    pub iterate_paths-walks :
        (fuel id : ℕ)
        → rank id < fuel
        → (path : List Edge)
        → (ys : List (List Edge)) × (iterate_paths g fuel id path ≡ some (ys, pop path))
          × IsIteration g path (edges_from id g) ys
    unfolding iterate_paths
    iterate_paths-walks zero id h path = absurd (omega arith)
    iterate_paths-walks (suc fuel) id h path =
        let (ys, runs, walks) =
          iterate_edges_lem (iterate_paths g fuel) fuel (λ i k. iterate_paths-walks fuel i k)
            (edges_from id g) path (Leads-from id fuel h) in
        (ys, rw runs, walks)
