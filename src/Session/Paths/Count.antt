-- ===== src/Session/Paths/Count.antt =====
-- The number of test cases that a session announces against those of the paths that it iterates.
use boofuzz.Base.{
  ℕ, zero, suc, ◌+◌, ◌<◌, ◌≡◌, refl, ap, ◌∙◌, List, [], ◌∷◌, ◌++◌, Option, none, some, ◌==◌,
  if◌then◌else◌, bind_cases, some_inj, arith, All,
}
use boofuzz.Base.Dict.{lookup}
use boofuzz.Graph.{Node, Edge, Graph, edges_from, values}
use boofuzz.Graph.Keys.{IsNodes}
use boofuzz.Session.Paths.{pop, iterate_edges, iterate_paths, count_edges, num_mutations_recursive}
use boofuzz.Session.Paths.Acyclic.{Descends, iterate_paths-walks}

module _ (g : Graph) (get_num_mutations : Node → ℕ) (root : ℕ) where
  abbrev pub num_of : Option Node → ℕ
  num_of none = 0
  num_of (some n) = get_num_mutations n

  -- The mutations of the message that a path ends at.
  abbrev pub cases_of : List Edge → ℕ
  cases_of [] = 0
  cases_of (e ∷ []) = num_of (lookup e.dst g.nodes)
  cases_of (e ∷ f ∷ path) = cases_of (f ∷ path)

  abbrev pub total_cases : List (List Edge) → ℕ
  total_cases [] = 0
  total_cases (y ∷ ys) = cases_of y + total_cases ys

  total_cases-append :
      (xs ys : List (List Edge)) → total_cases (xs ++ ys) ≡ total_cases xs + total_cases ys
  total_cases-append [] ys = omega arith
  total_cases-append (x ∷ xs) ys = omega (arith, total_cases-append xs ys)

  cases_of_append :
      (path : List Edge) (e : Edge) → cases_of (path ++ e ∷ []) ≡ num_of (lookup e.dst g.nodes)
  cases_of_append [] e = refl
  cases_of_append (d ∷ []) e = refl
  cases_of_append (d ∷ f ∷ path) e = cases_of_append (f ∷ path) e

  abbrev pub Counts : Option (ℕ × List Edge) → ℕ → Type 0
  Counts result total = (path : List Edge) × (result ≡ some (total, path))

  abbrev Agree :
      (ℕ → List Edge → Option (List (List Edge) × List Edge))
      → (ℕ → ℕ → List Edge → Option (ℕ × List Edge))
      → Type 0
  Agree iterate count =
      (id total : ℕ) (path path' : List Edge) (result : List (List Edge) × List Edge)
      → iterate id path ≡ some result
      → Counts (count id total path') (total + total_cases result.0)

  count_cons :
      (count : ℕ → ℕ → List Edge → Option (ℕ × List Edge)) (e : Edge) (es : List Edge) (total : ℕ)
      (path : List Edge) (n : Node) (t1 t2 : ℕ) (p1 p2 : List Edge)
      → lookup e.dst g.nodes ≡ some n
      → count n.id (total + get_num_mutations n) (if e.src == root then path else path ++ e ∷ [])
        ≡ some (t1, p1)
      → count_edges g get_num_mutations root count es t1 p1 ≡ some (t2, p2)
      → count_edges g get_num_mutations root count (e ∷ es) total path ≡ some (t2, p2)
  unfolding count_edges
  count_cons count e es total path n t1 t2 p1 p2 stored counted later = rw (stored, counted) later

  count_edges_lem :
      (iterate : ℕ → List Edge → Option (List (List Edge) × List Edge))
      (count : ℕ → ℕ → List Edge → Option (ℕ × List Edge))
      → Agree iterate count
      → (es : List Edge) (total : ℕ) (path path' : List Edge)
        (result : List (List Edge) × List Edge)
      → iterate_edges g iterate es path ≡ some result
      → Counts
          (count_edges g get_num_mutations root count es total path')
          (total + total_cases result.0)
  unfolding iterate_edges count_edges
  count_edges_lem iterate count agree [] total path path' result runs =
      (path', rw (← some_inj runs) (ap (λ (n : ℕ). some (n, path')) (omega arith)))
  count_edges_lem iterate count agree (e ∷ es) total path path' result runs =
      let (n, stored, runs1) = bind_cases (lookup e.dst g.nodes) _ result runs in
      let (inner, visited, runs2) = bind_cases (iterate n.id (path ++ e ∷ [])) _ result runs1 in
      let (rest, later, runs3) = bind_cases (iterate_edges g iterate es inner.1) _ result runs2 in
      let extended' = if e.src == root then path' else path' ++ e ∷ [] in
      let (p1, counted) =
        agree n.id (total + get_num_mutations n) (path ++ e ∷ []) extended' inner visited in
      let (p2, counted') =
        count_edges_lem iterate count agree es (total + get_num_mutations n + total_cases inner.0)
          inner.1 p1 rest later in
      (
        p2,
        count_cons count e es total path' n _ _ p1 p2 stored counted counted'
            ∙ ap (λ (k : ℕ). some (k, p2))
                (omega (
                  arith,
                  total_cases-append inner.0 rest.0,
                  cases_of_append path e ∙ ap num_of stored,
                  ap (λ (r : List (List Edge) × List Edge). total_cases r.0) (some_inj runs3),
                )),
      )

  count_node :
      (fuel id total : ℕ) (path : List Edge) (t : ℕ) (p : List Edge)
      → count_edges g get_num_mutations root
          (num_mutations_recursive g get_num_mutations root fuel)
          (edges_from id g)
          total
          path
        ≡ some (t, p)
      → num_mutations_recursive g get_num_mutations root (suc fuel) id total path ≡ some (t, pop p)
  unfolding num_mutations_recursive
  count_node fuel id total path t p counted = rw counted

  Agree-at :
      (fuel : ℕ)
      → Agree (iterate_paths g fuel) (num_mutations_recursive g get_num_mutations root fuel)
  unfolding iterate_paths num_mutations_recursive
  Agree-at zero id total path path' result runs = absurd cc
  Agree-at (suc fuel) id total path path' result runs =
      let (inner, iterated, same) =
        bind_cases (iterate_edges g (iterate_paths g fuel) (edges_from id g) path) _ result runs in
      let (p, counted) =
        count_edges_lem _ _ (Agree-at fuel) (edges_from id g) total path path' inner iterated in
      (
        pop p,
        count_node fuel id total path' (total + total_cases inner.0) p counted
            ∙ ap (λ (k : List (List Edge) × List Edge). some (total + total_cases k.0, pop p))
                (some_inj same),
      )

  -- A graph whose nodes stand under their identifiers, in which each edge leads to a node of the
  -- graph with a lower rank: with more fuel than the root's rank, the count from 0 ends with the
  -- sum, over all paths that the iteration from the root yields, of the mutations of the message
  -- that the path ends at.
  pub num_mutations-total_cases :
      (rank : ℕ → ℕ) (fuel : ℕ)
      → IsNodes g.nodes
      → All (Descends g rank) (values g.edges)
      → rank root < fuel
      → (ys : List (List Edge)) × (iterate_paths g fuel root [] ≡ some (ys, []))
        × Counts (num_mutations_recursive g get_num_mutations root fuel root 0 []) (total_cases ys)
  unfolding pop
  num_mutations-total_cases rank fuel keyed acyclic enough =
      let (ys, runs, _) = iterate_paths-walks g keyed rank acyclic fuel root enough [] in
      let (p, counted) = Agree-at fuel root 0 [] [] (ys, []) runs in
      (ys, runs, (p, counted ∙ ap (λ (n : ℕ). some (n, p)) (omega arith)))
