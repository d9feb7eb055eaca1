-- ===== src/Blocks/Build/Tree/Names.antt =====
-- The dictionary of names of a request that is set up with children.
use boofuzz.Base.{
  ◌≡◌, refl, ap, sym, ◌∙◌, Bool, true, false, List, [], ◌∷◌, ◌++◌, append_assoc, append-nil, Option,
  none, some, if◌then◌else◌, bind_cases, some_inj, subst,
}
use boofuzz.Base.Text.{Text, text_mem}
use boofuzz.Base.Runs.{Yields}
use boofuzz.Blocks.Names.{generate_context_path, qualified_name}
use boofuzz.Blocks.Element.{Info, Leaf, BlockKind, Element, leaf, node, Elements, nil, cons}
use boofuzz.Blocks.Build.Tree.{
  placed, name_within, initialize_child, initialize_children, request_of,
}

-- The qualified names of elements, each before those of its children.
abbrev mutual
  pub element_names : Element → List Text
  element_names (leaf i k) = qualified_name i.context_path i.name ∷ []
  element_names (node i k es) = qualified_name i.context_path i.name ∷ all_names es

  pub all_names : Elements → List Text
  all_names nil = []
  all_names (cons e es) = element_names e ++ all_names es

-- The children that result have names that follow those there were.
abbrev Follow : {A : Type 0} → (A → List Text) → List Text → List Text × A → Type 0
Follow new names r = r.0 ≡ names ++ new r.1

-- A step that may be refused before it gives a result.
unless_cases :
    {A : Type 0} (b : Bool) (o : Option A) (a : A) → (if b then none else o) ≡ some a → o ≡ some a
unless_cases true o a e = absurd cc
unless_cases false o a e = e

module _ (name : Text) where
  abbrev ChildFollows : Element → Type 0
  ChildFollows e =
      (block_stack names : List Text)
      → Yields (Follow element_names names) (initialize_child name block_stack e names)

  abbrev ChildrenFollow : Elements → Type 0
  ChildrenFollow es =
      (block_stack names : List Text)
      → Yields (Follow all_names names) (initialize_children name block_stack es names)

  abbrev made : Info → Leaf → List Text → List Text → List Text × Element
  made i k block_stack names = (
    names ++ name_within name block_stack i ∷ [],
    leaf (placed (generate_context_path name block_stack) i) k,
  )

  leaf_lem : (i : Info) (k : Leaf) → ChildFollows (leaf i k)
  unfolding initialize_child
  leaf_lem i k block_stack names r e =
      subst (λ x. Follow element_names names x)
        (some_inj (
          unless_cases (text_mem (name_within name block_stack i) names)
            (some (made i k block_stack names)) r e))
        refl

  node_lem :
      (i : Info) (k : BlockKind) (es : Elements) → ChildrenFollow es → ChildFollows (node i k es)
  unfolding initialize_child
  node_lem i k es follow block_stack names r e =
      let (x, xs, ex) =
        bind_cases
          (initialize_children name (block_stack ++ i.name ∷ []) es
            (names ++ name_within name block_stack i ∷ []))
          _ r (unless_cases (text_mem (name_within name block_stack i) names) _ r e) in
      subst (λ y. Follow element_names names y) (some_inj ex)
        (follow (block_stack ++ i.name ∷ []) _ x xs
          ∙ append_assoc names (name_within name block_stack i ∷ []) (all_names x.1))

  cons_lem :
      (e : Element) (es : Elements)
      → ChildFollows e
      → ChildrenFollow es
      → ChildrenFollow (cons e es)
  unfolding initialize_children
  cons_lem e es one follow block_stack names r h =
      let (x, xs, ex) = bind_cases (initialize_child name block_stack e names) _ r h in
      let (y, ys, ey) = bind_cases (initialize_children name block_stack es x.0) _ r ex in
      subst (λ z. Follow all_names names z) (some_inj ey)
        (follow block_stack x.0 y ys
          ∙ (ap (λ (l : List Text). l ++ all_names y.1) (one block_stack names x xs)
              ∙ append_assoc names (element_names x.1) (all_names y.1)))

  nil_lem : ChildrenFollow nil
  unfolding initialize_children
  nil_lem block_stack names r h =
      subst (λ z. Follow all_names names z) (some_inj h) (sym (append-nil names))

  mutual
    child_lem : (e : Element) → ChildFollows e
    child_lem (leaf i k) = leaf_lem i k
    child_lem (node i k es) = node_lem i k es (children_lem es)

    children_lem : (es : Elements) → ChildrenFollow es
    children_lem nil = nil_lem
    children_lem (cons e es) = cons_lem e es (child_lem e) (children_lem es)

  -- The dictionary of a request that is set up with children has the request's name and then
  -- exactly the qualified names of its elements, with the context paths that they got, each block
  -- before what it contains.
  pub request_of-all_names :
      (es built : Elements) (names : List Text)
      → request_of name es ≡ some (names, built)
      → names ≡ name ∷ all_names built
  unfolding request_of
  request_of-all_names es built names h = children_lem es [] (name ∷ []) (names, built) h
