-- ===== src/Blocks/Build/Tree/Script.antt =====
-- Pushing elements one by one, with the blocks opened and closed, against setting them up whole.
use boofuzz.Base.{
  ◌≡◌, refl, ap, sym, ◌∙◌, List, [], ◌∷◌, ◌++◌, Option, none, some, ◌>>=◌, if◌then◌else◌,
  bind_assoc, bind_ext, unless_bind,
}
use boofuzz.Base.Text.{Text}
use boofuzz.Blocks.Element.{Info, Leaf, BlockKind, Element, leaf, node, Elements, nil, cons}
use boofuzz.Blocks.Build.Tree.Grow.{
  add_all-root, grown, taken, path_in, names_with, opened, push-leaf, push-node, close_lem,
}
use boofuzz.Blocks.Build.Tree.{
  Spine, root, Tree, placed, push_element, pop_block, empty_tree, initialize_child,
  initialize_children, request_of, Initialized,
}

-- The calls of a definition that is written out: push an element, or close the last block.
pub data Command : Type 0 where
  put : Element → Command
  end : Command

abbrev pub step : Command → Tree → Option Tree
step (put e) t = push_element e t
step end t = pop_block t

abbrev pub run : List Command → Tree → Option Tree
run [] t = some t
run (c ∷ cs) t = step c t >>= run cs

-- The calls that define an element: a block is opened empty, filled, and closed.
abbrev mutual
  pub script_of : Element → List Command
  script_of (leaf i k) = put (leaf i k) ∷ []
  script_of (node i k es) = put (node i k nil) ∷ (script es ++ end ∷ [])

  pub script : Elements → List Command
  script nil = []
  script (cons e es) = script_of e ++ script es

run-append : (cs ds : List Command) (t : Tree) → run (cs ++ ds) t ≡ (run cs t >>= run ds)
run-append [] ds t = refl
run-append (c ∷ cs) ds t =
    bind_ext (step c t) (run (cs ++ ds)) (λ u. run cs u >>= run ds) (run-append cs ds)
    ∙ sym (bind_assoc (run cs) (run ds) (step c t))

abbrev grown_one : Tree → List Text × Element → Option Tree
grown_one t r = some (grown t (r.0, cons r.1 nil))

abbrev as_block : Tree → Info → BlockKind → List Text × Elements → Option (List Text × Element)
as_block t i k r = some (r.0, node (placed (path_in t) i) k r.1)

abbrev Scripted : Elements → Type 0
Scripted es =
    (t : Tree)
    → run (script es) t ≡ (
        initialize_children t.builder.name t.builder.block_stack es t.builder.names >>= λ r.
        some (grown t r))

abbrev ScriptedOne : Element → Type 0
ScriptedOne e =
    (t : Tree)
    → run (script_of e) t
      ≡ (initialize_child t.builder.name t.builder.block_stack e t.builder.names >>= grown_one t)

leaf_lem : (i : Info) (k : Leaf) → ScriptedOne (leaf i k)
unfolding initialize_child
leaf_lem i k t =
    ap (λ (o : Option Tree). o >>= λ u. some u) (push-leaf i k t)
    ∙ (unless_bind (taken t i) _ _ ∙ sym (unless_bind (taken t i) _ _))

block_lem : (i : Info) (k : BlockKind) (es : Elements) → Scripted es → ScriptedOne (node i k es)
unfolding initialize_child
block_lem i k es scripted t =
    ap (λ (o : Option Tree). o >>= run (script es ++ end ∷ [])) (push-node i k t)
    ∙ (unless_bind (taken t i) (some (opened t i k)) (run (script es ++ end ∷ []))
        ∙ (ap (λ (o : Option Tree). if taken t i then none else o) within
            ∙ sym (unless_bind (taken t i) (children >>= as_block t i k) (grown_one t))))
  where
    children : Initialized Elements
    children =
        initialize_children t.builder.name (t.builder.block_stack ++ i.name ∷ []) es
          (names_with t i)

    within :
        run (script es ++ end ∷ []) (opened t i k) ≡ ((children >>= as_block t i k) >>= grown_one t)
    within =
        run-append (script es) (end ∷ []) (opened t i k)
        ∙ (ap (λ (o : Option Tree). o >>= run (end ∷ [])) (scripted (opened t i k))
            ∙ (bind_assoc (λ r. some (grown (opened t i k) r)) (run (end ∷ [])) children
                ∙ (bind_ext children _ _
                      (λ r. ap (λ (o : Option Tree). o >>= λ u. some u) (close_lem i k t r))
                    ∙ sym (bind_assoc (as_block t i k) (grown_one t) children))))

cons_lem : (e : Element) (es : Elements) → ScriptedOne e → Scripted es → Scripted (cons e es)
unfolding initialize_children
cons_lem e es one scripted t =
    run-append (script_of e) (script es) t
    ∙ (ap (λ (o : Option Tree). o >>= run (script es)) (one t)
        ∙ (bind_assoc (grown_one t) (run (script es)) first
            ∙ (bind_ext first _ _
                  (λ r. scripted (grown t (r.0, cons r.1 nil)) ∙ sym (bind_assoc _ _ (rest r)))
                ∙ sym (bind_assoc _ _ first))))
  where
    first : Initialized Element
    first = initialize_child t.builder.name t.builder.block_stack e t.builder.names

    rest : List Text × Element → Initialized Elements
    rest r = initialize_children t.builder.name t.builder.block_stack es r.0

nil_lem : Scripted nil
unfolding initialize_children
nil_lem t = refl

mutual
  run-script_of : (e : Element) → ScriptedOne e
  run-script_of (leaf i k) t = leaf_lem i k t
  run-script_of (node i k es) t = block_lem i k es (run-script es) t

  run-script : (es : Elements) → Scripted es
  run-script nil t = nil_lem t
  run-script (cons e es) t = cons_lem e es (run-script_of e) (run-script es) t

-- Calls that push the elements one by one, opening each block, filling it and closing it, build the
-- same request as the constructor makes of them given whole: the same names in the same order, the
-- same tree with its context paths, no open block; and they fail where the constructor does.
pub run-request_of :
    (name : Text) (es : Elements)
    → run (script es) (empty_tree name) ≡ (
        request_of name es >>= λ r. some (record {
          builder = record { name = name; names = r.0; block_stack = [] };
          spine = root r.1;
        }))
unfolding request_of
run-request_of name es =
    run-script es (empty_tree name)
    ∙ bind_ext (initialize_children name [] es (name ∷ [])) _ _ (λ r.
      ap
        (λ (s : Spine).
          some
            (record { builder = record { name = name; names = r.0; block_stack = [] }; spine = s }))
        (add_all-root r.1 nil))
