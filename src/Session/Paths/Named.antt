-- ===== src/Session/Paths/Named.antt =====
-- The path of a test case name leads where the name says.
use boofuzz.Base.{
  ℕ, ◌≡◌, refl, subst, inl, inr, List, [], ◌∷◌, some, bind_cases, some_inj, Elem, Bool-cases,
}
use boofuzz.Base.Dict.{lookup}
use boofuzz.Base.Text.{text_eq, text_eq_iff}
use boofuzz.Graph.{Node, Edge, Graph, edges_from}
use boofuzz.Graph.Keys.{IsNodes}
use boofuzz.Session.Paths.{edge_to_name, path_names_to_edges}
use boofuzz.Session.Paths.Walk.{IsWalk, id_of_lookup}

module _ (g : Graph) (keyed : IsNodes g.nodes) where
  -- The nodes that the edges lead to have the names.
  abbrev pub LeadsThrough : List Edge → List (List ℕ) → Type 0
  LeadsThrough [] [] = Unit
  LeadsThrough [] (t ∷ ts) = ⊥
  LeadsThrough (e ∷ es) [] = ⊥
  LeadsThrough (e ∷ es) (t ∷ ts) =
      ((n : Node) × (lookup e.dst g.nodes ≡ some n) × (n.name ≡ t)) × LeadsThrough es ts

  abbrev IsStep : List ℕ → List Edge → Edge × Node → Type 0
  IsStep t es step = Elem step.0 es × (lookup step.0.dst g.nodes ≡ some step.1) × (step.1.name ≡ t)

  edge_to_name-IsStep :
      (t : List ℕ) (es : List Edge) (step : Edge × Node)
      → edge_to_name g t es ≡ some step
      → IsStep t es step
  unfolding edge_to_name
  edge_to_name-IsStep t [] step h = absurd cc
  edge_to_name-IsStep t (e ∷ es) step h =
      let (n, leads, chosen) = bind_cases (lookup e.dst g.nodes) _ step h in
      elim (Bool-cases (text_eq n.name t)) [
        | inl same ↦
            subst (IsStep t (e ∷ es)) (some_inj (rw same at chosen))
              (inl refl, leads, (text_eq_iff n.name t).0 same)
        | inr other ↦
            let (member, leads', named) = edge_to_name-IsStep t es step (rw other at chosen) in
            (inr member, leads', named)
      ]

  -- Nodes that stand under their identifiers: the edges that are found for names are a walk from the
  -- node that the search started from, through nodes with these names in this order.
  pub path_names_to_edges-LeadsThrough :
      (cur_node : ℕ) (names : List (List ℕ)) (path : List Edge)
      → path_names_to_edges g cur_node names ≡ some path
      → IsWalk g cur_node path × LeadsThrough path names
  unfolding path_names_to_edges
  path_names_to_edges-LeadsThrough cur [] path h =
      subst (λ (p : List Edge). IsWalk g cur p × LeadsThrough p []) (some_inj h) (tt, tt)
  path_names_to_edges-LeadsThrough cur (t ∷ ts) path h =
      let (step, found, h1) = bind_cases (edge_to_name g t (edges_from cur g)) _ path h in
      let (rest, later, h2) = bind_cases (path_names_to_edges g step.1.id ts) _ path h1 in
      let (member, leads, named) = edge_to_name-IsStep t (edges_from cur g) step found in
      let (walk, through) = path_names_to_edges-LeadsThrough step.1.id ts rest later in
      subst (λ (p : List Edge). IsWalk g cur p × LeadsThrough p (t ∷ ts)) (some_inj h2)
        (
          (
            member,
            subst (λ (k : ℕ). IsWalk g k rest) (id_of_lookup step.0.dst g.nodes step.1 keyed leads)
                walk,
          ),
          ((step.1, leads, named), through),
        )
