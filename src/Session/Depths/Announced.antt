-- ===== src/Session/Depths/Announced.antt =====
-- What a session announces against what it fuzzes, at depth 1.
use boofuzz.Base.{
  ℕ, zero, suc, ◌<◌, ◌≡◌, ◌≢◌, refl, ap, sym, ◌∙◌, List, [], ◌∷◌, ◌++◌, Option, none, some, length,
  bind_cases, some_inj, All, All-append, append-nil, length-append, length-map, subst, arith,
}
use boofuzz.Base.Dict.{lookup}
use boofuzz.Base.Text.{Text}
use boofuzz.Blocks.Mutations.{Mutation}
use boofuzz.Graph.{Node, Edge, Graph, edges_from, values}
use boofuzz.Graph.Keys.{IsNodes}
use boofuzz.Session.Paths.{
  iterate_edges, iterate_paths, iterate_protocol_message_paths, num_mutations,
}
use boofuzz.Session.Paths.Acyclic.{Descends}
use boofuzz.Session.Paths.Count.{num_of, cases_of, total_cases, num_mutations-total_cases}
use boofuzz.Session.Generate.{
  generate_n_mutations_for_path, IsSingle, generate_n_mutations_for_path-single,
}
use boofuzz.Session.Depths.{
  TestCase, fuzz_node_of, unless_raised, cases_of_node, generate_n_mutations, then_deeper,
  generate_from, generate_mutations_indefinitely, fuzz_all,
}

module _ (g : Graph) where
  abbrev pub EndsInNode : List Edge → Type 0
  EndsInNode path = (n : Node) × (fuzz_node_of g path ≡ some n)

  fuzz_node_of-append :
      (path : List Edge) (e : Edge) → fuzz_node_of g (path ++ e ∷ []) ≡ lookup e.dst g.nodes
  unfolding fuzz_node_of
  fuzz_node_of-append [] e = refl
  fuzz_node_of-append (d ∷ []) e = refl
  fuzz_node_of-append (d ∷ f ∷ path) e = fuzz_node_of-append (f ∷ path) e

  abbrev AllEnd : (ℕ → List Edge → Option (List (List Edge) × List Edge)) → Type 0
  AllEnd iterate =
      (id : ℕ) (path : List Edge) (result : List (List Edge) × List Edge)
      → iterate id path ≡ some result
      → All EndsInNode result.0

  iterate_edges-AllEnd :
      (iterate : ℕ → List Edge → Option (List (List Edge) × List Edge))
      → AllEnd iterate
      → (es path : List Edge) (result : List (List Edge) × List Edge)
      → iterate_edges g iterate es path ≡ some result
      → All EndsInNode result.0
  unfolding iterate_edges
  iterate_edges-AllEnd iterate h [] path result e =
      subst (λ (r : List (List Edge) × List Edge). All EndsInNode r.0) (some_inj e) tt
  iterate_edges-AllEnd iterate h (e ∷ es) path result runs =
      let (n, stored, runs1) = bind_cases (lookup e.dst g.nodes) _ result runs in
      let (inner, visited, runs2) = bind_cases (iterate n.id (path ++ e ∷ [])) _ result runs1 in
      let (rest, later, runs3) = bind_cases (iterate_edges g iterate es inner.1) _ result runs2 in
      subst (λ (r : List (List Edge) × List Edge). All EndsInNode r.0) (some_inj runs3)
        (
          (n, fuzz_node_of-append path e ∙ stored),
          All-append EndsInNode inner.0 rest.0 (h n.id (path ++ e ∷ []) inner visited)
              (iterate_edges-AllEnd iterate h es inner.1 rest later),
        )

  -- Every path that is iterated ends at a node.
  iterate_paths-AllEnd : (fuel : ℕ) → AllEnd (iterate_paths g fuel)
  unfolding iterate_paths
  iterate_paths-AllEnd zero id path result runs = absurd cc
  iterate_paths-AllEnd (suc fuel) id path result runs =
      let (inner, iterated, same) =
        bind_cases (iterate_edges g (iterate_paths g fuel) (edges_from id g) path) _ result runs in
      subst (λ (r : List (List Edge) × List Edge). All EndsInNode r.0) (some_inj same)
        (iterate_edges-AllEnd (iterate_paths g fuel) (iterate_paths-AllEnd fuel) (edges_from id g)
          path inner iterated)

  module _ (get_mutations : Node → (skip_elements : List Text) → List (List Mutation))
      (get_num_mutations : Node → ℕ) (root : ℕ) where
    -- Requests each of whose mutations changes a single element, and that announce their number.
    abbrev pub IsAnnounced : Node → Type 0
    IsAnnounced n =
        All (IsSingle (get_mutations n)) (get_mutations n [])
        × (get_num_mutations n ≡ length (get_mutations n []))

    cases_of-fuzz_node_of :
        (path : List Edge) (n : Node)
        → fuzz_node_of g path ≡ some n
        → cases_of g get_num_mutations root path ≡ get_num_mutations n
    unfolding fuzz_node_of
    cases_of-fuzz_node_of [] n e = absurd cc
    cases_of-fuzz_node_of (d ∷ []) n e = ap (num_of g get_num_mutations root) e
    cases_of-fuzz_node_of (d ∷ f ∷ path) n e = cases_of-fuzz_node_of (f ∷ path) n e

    length_lem :
        (n : Node) (path : List Edge)
        → IsAnnounced n
        → length (cases_of_node g get_mutations 1 path n) ≡ get_num_mutations n
    length_lem n path h =
        length-map (generate_n_mutations_for_path (get_mutations n) 1)
          (λ us. record { message_path = path; mutations = us })
        ∙ (ap length (generate_n_mutations_for_path-single (get_mutations n) h.0) ∙ sym h.1)

    generate_lem :
        ((n : Node) → IsAnnounced n)
        → (ys : List (List Edge)) → All EndsInNode ys
        → (cs : List TestCase) × (generate_n_mutations g get_mutations 1 ys ≡ some cs)
          × (length cs ≡ total_cases g get_num_mutations root ys)
    unfolding generate_n_mutations
    generate_lem announced [] h = ([], refl, refl)
    generate_lem announced (path ∷ ys) h =
        let (n, stored) = h.0 in
        let (cs, runs, size) = generate_lem announced ys h.1 in
        (
          cases_of_node g get_mutations 1 path n ++ cs,
          rw (stored, runs) refl,
          omega (
            arith,
            size,
            length-append (cases_of_node g get_mutations 1 path n) cs,
            length_lem n path (announced n),
            cases_of-fuzz_node_of path n stored,
          ),
        )

    no_deeper : (cs : List TestCase) → then_deeper g get_mutations (some []) cs ≡ some cs
    no_deeper [] = refl
    no_deeper (c ∷ cs) = ap (λ (l : List TestCase). some l) (append-nil (c ∷ cs))

    paths_lem :
        (fuel targets : ℕ) (ys : List (List Edge))
        → edges_from root g ≢ []
        → iterate_paths g fuel root [] ≡ some (ys, [])
        → unless_raised (iterate_protocol_message_paths g fuel (suc targets) root none) ≡ some ys
    unfolding iterate_protocol_message_paths
    paths_lem fuel targets ys h iterated = go (edges_from root g) refl
      where
        go :
            (es : List Edge)
            → edges_from root g ≡ es
            → unless_raised (iterate_protocol_message_paths g fuel (suc targets) root none)
              ≡ some ys
        go [] e = absurd (h e)
        go (x ∷ es) e = rw (e, iterated) refl

    -- On a session's graph without a circle, with a target and a request behind the root, where each mutation of a request changes a single element
    -- and each request announces as many mutations as it yields, so that no crash threshold cuts them
    -- short: with a maximal depth of 1, `fuzz`
    -- announces exactly as many test cases as it hands to the main loop.
    pub fuzz_all-announced :
        (rank : ℕ → ℕ) (targets fuel : ℕ)
        → edges_from root g ≢ []
        → IsNodes g.nodes
        → All (Descends g rank) (values g.edges)
        → rank root < suc (suc fuel)
        → ((n : Node) → IsAnnounced n)
        → (cs : List TestCase) × (fuzz_all g get_mutations get_num_mutations
              (suc targets)
              (suc (suc fuel))
              root
              (some 1)
            ≡ some (some (length cs), cs))
    unfolding fuzz_all num_mutations generate_mutations_indefinitely generate_from
    fuzz_all-announced rank targets fuel some_request keyed acyclic enough announced =
        let (ys, iterated, (p, counted)) =
          num_mutations-total_cases g get_num_mutations root rank (suc (suc fuel)) keyed acyclic
            enough in
        let (cs, generated, size) =
          generate_lem announced ys
            (iterate_paths-AllEnd (suc (suc fuel)) root [] (ys, []) iterated) in
        (
          cs,
          rw
              (
                counted,
                paths_lem (suc (suc fuel)) targets ys some_request iterated,
                generated,
                no_deeper cs,
              )
              (ap (λ (n : ℕ). some (some n, cs)) (sym size)),
        )
