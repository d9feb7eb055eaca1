-- ===== src/Blocks/Build/Tree/Grow.antt =====
-- What pushes and pops do to the tree of a request, with children added several at once.
use boofuzz.Base.{
  ◌≡◌, refl, ap, sym, ◌∙◌, Bool, List, [], ◌∷◌, ◌++◌, Option, none, some, ◌>>=◌, if◌then◌else◌,
  unless_bind,
}
use boofuzz.Base.Text.{Text, text_mem}
use boofuzz.Blocks.Names.{generate_context_path}
use boofuzz.Blocks.Element.{Info, Leaf, BlockKind, Element, leaf, node, Elements, nil, cons}
use boofuzz.Blocks.Build.{Builder, push, pop, pop_from, without_last}
use boofuzz.Blocks.Build.Tree.{
  Spine, root, inside, Tree, snoc, add, close, placed, push_element, pop_block, name_within,
}

abbrev pub add_all : Elements → Spine → Spine
add_all nil s = s
add_all (cons e es) s = add_all es (add e s)

abbrev pub append : Elements → Elements → Elements
append nil fs = fs
append (cons e es) fs = cons e (append es fs)

snoc-append : (es fs : Elements) (e : Element) → append (snoc es e) fs ≡ append es (cons e fs)
unfolding snoc
snoc-append nil fs e = refl
snoc-append (cons f es) fs e = ap (cons f) (snoc-append es fs e)

append_nil : (es : Elements) → append es nil ≡ es
append_nil nil = refl
append_nil (cons e es) = ap (cons e) (append_nil es)

pub add_all-inside :
    (fs es : Elements) (s : Spine) (i : Info) (k : BlockKind)
    → add_all fs (inside s i k es) ≡ inside s i k (append es fs)
unfolding add
add_all-inside nil es s i k = ap (inside s i k) (sym (append_nil es))
add_all-inside (cons e fs) es s i k =
    add_all-inside fs (snoc es e) s i k ∙ ap (inside s i k) (snoc-append es fs e)

pub add_all-root : (fs es : Elements) → add_all fs (root es) ≡ root (append es fs)
unfolding add
add_all-root nil es = ap root (sym (append_nil es))
add_all-root (cons e fs) es = add_all-root fs (snoc es e) ∙ ap root (snoc-append es fs e)

-- A tree to which children with their names have been added.
abbrev pub grown : Tree → List Text × Elements → Tree
grown t r = record { builder = record (t.builder) { names = r.0 }; spine = add_all r.1 t.spine }

without_last_lem : (ts : List Text) (t : Text) → without_last (ts ++ t ∷ []) ≡ ts
without_last_lem [] t = refl
without_last_lem (u ∷ []) t = refl
without_last_lem (u ∷ v ∷ ts) t = ap (λ (l : List Text). u ∷ l) (without_last_lem (v ∷ ts) t)

pop_last :
    (b : Builder) (ts : List Text) (t : Text)
    → pop_from b (ts ++ t ∷ []) ≡ some (record b { block_stack = ts })
pop_last b [] t = refl
pop_last b (u ∷ ts) t =
    ap (λ (l : List Text). some (record b { block_stack = l })) (without_last_lem (u ∷ ts) t)

-- Is the name of the element taken?
abbrev pub taken : Tree → Info → Bool
taken t i = text_mem (name_within t.builder.name t.builder.block_stack i) t.builder.names

abbrev pub path_in : Tree → Text
path_in t = generate_context_path t.builder.name t.builder.block_stack

abbrev pub names_with : Tree → Info → List Text
names_with t i = t.builder.names ++ name_within t.builder.name t.builder.block_stack i ∷ []

abbrev pub opened : Tree → Info → BlockKind → Tree
opened t i k = record {
  builder = record {
    name = t.builder.name;
    names = names_with t i;
    block_stack = t.builder.block_stack ++ i.name ∷ [];
  };
  spine = inside t.spine (placed (path_in t) i) k nil;
}

pub push-leaf :
    (i : Info) (k : Leaf) (t : Tree)
    → push_element (leaf i k) t ≡ (
        if taken t i
        then none
        else some (grown t (names_with t i, cons (leaf (placed (path_in t) i) k) nil)))
unfolding push_element push
push-leaf i k t = unless_bind (taken t i) _ _

pub push-node :
    (i : Info) (k : BlockKind) (t : Tree)
    → push_element (node i k nil) t ≡ (if taken t i then none else some (opened t i k))
unfolding push_element push
push-node i k t = unless_bind (taken t i) _ _

-- The block that was opened is closed behind its children.
pub close_lem :
    (i : Info) (k : BlockKind) (t : Tree) (r : List Text × Elements)
    → pop_block (grown (opened t i k) r)
      ≡ some (grown t (r.0, cons (node (placed (path_in t) i) k r.1) nil))
unfolding pop_block pop
close_lem i k t r =
    ap
      (λ (o : Option Builder). o >>= λ b. some (record {
        builder = b;
        spine = close (add_all r.1 (inside t.spine (placed (path_in t) i) k nil));
      }))
      (pop_last
        (record {
          name = t.builder.name;
          names = r.0;
          block_stack = t.builder.block_stack ++ i.name ∷ [];
        })
        t.builder.block_stack i.name)
    ∙ ap
        (λ (s : Spine).
          some (record { builder = record (t.builder) { names = r.0 }; spine = close s }))
        (add_all-inside r.1 nil t.spine (placed (path_in t) i) k)
