-- ===== src/Blocks/Build/Tree.antt =====
-- The tree of a request under construction (boofuzz/blocks/request.py): the stacks that `push` and
-- `pop` fill beside the names, and `_initialize_children`, which sets up children that are given
-- whole. `none` is a SullyRuntimeError.
pub mod Grow
pub mod Script
pub mod Names
use boofuzz.Base.{List, [], ◌∷◌, ◌++◌, Option, none, some, ◌>>=◌, true, false, if◌then◌else◌}
use boofuzz.Base.Text.{Text, text_mem}
use boofuzz.Blocks.Names.{generate_context_path, qualified_name}
use boofuzz.Blocks.Element.{Info, BlockKind, Element, leaf, node, Elements, nil, cons, info}
use boofuzz.Blocks.Build.{Builder, Item, empty_request, push, pop, without_last}

-- The stack of the request with the blocks that are open: an open block stands last on the stack of
-- the block around it, and has elements of its own.
pub data Spine : Type 0 where
  root : Elements → Spine
  inside : Spine → Info → BlockKind → Elements → Spine

pub record Tree : Type 0 where
  pub builder : Builder
  pub spine : Spine

unfoldable pub snoc : Elements → Element → Elements
snoc nil e = cons e nil
snoc (cons f es) e = cons f (snoc es e)

-- `self.stack.append(item)` or `self.block_stack[-1].push(item)`.
unfoldable pub add : Element → Spine → Spine
add e (root es) = root (snoc es e)
add e (inside s i k es) = inside s i k (snoc es e)

-- The last open block is closed and stays where it is.
abbrev pub close : Spine → Spine
close (root es) = root es
close (inside s i k es) = add (node i k es) s

-- `item.context_path = ...`.
abbrev pub placed : Text → Info → Info
placed path i = record i { context_path = path }

abbrev pub item_of : Element → Item
item_of (leaf i k) = record { name = i.name; is_block = false }
item_of (node i k es) = record { name = i.name; is_block = true }

abbrev pub place : Text → Element → Spine → Spine
place path (leaf i k) s = add (leaf (placed path i) k) s
place path (node i k es) s = inside s (placed path i) k es

abbrev pub path_of : Builder → Text
path_of b = generate_context_path b.name b.block_stack

-- `Request.push` with the stacks.
unfoldable pub push_element : Element → Tree → Option Tree
push_element e t = do
  b ← push (item_of e) t.builder
  some (record { builder = b; spine = place (path_of t.builder) e t.spine })

-- `Request.pop`.
unfoldable pub pop_block : Tree → Option Tree
pop_block t = do b ← pop t.builder; some (record { builder = b; spine = close t.spine })

-- A request with no children.
abbrev pub empty_tree : Text → Tree
empty_tree name = record { builder = empty_request name; spine = root nil }

-- What `_initialize_children` makes of children: the names after them, and the children with their
-- context paths.
abbrev pub Initialized : Type 0 → Type 0
Initialized A = Option (List Text × A)

abbrev pub name_within : Text → List Text → Info → Text
name_within name block_stack i = qualified_name (generate_context_path name block_stack) i.name

unfoldable mutual
  pub initialize_child : (name : Text) → List Text → Element → List Text → Initialized Element
  initialize_child name block_stack (leaf i k) names =
      if text_mem (name_within name block_stack i) names
      then none
      else some (
        names ++ name_within name block_stack i ∷ [],
        leaf (placed (generate_context_path name block_stack) i) k,
      )
  initialize_child name block_stack (node i k es) names =
      let inner =
        initialize_children name (block_stack ++ i.name ∷ []) es
          (names ++ name_within name block_stack i ∷ []) in
      if text_mem (name_within name block_stack i) names
      then none
      else inner >>= λ r. some (r.0, node (placed (generate_context_path name block_stack) i) k r.1)

  pub initialize_children : (name : Text) → List Text → Elements → List Text → Initialized Elements
  initialize_children name block_stack nil names = some (names, nil)
  initialize_children name block_stack (cons e es) names =
      initialize_child name block_stack e names >>= λ first.
      initialize_children name block_stack es first.0 >>= λ rest. some (rest.0, cons first.1 rest.1)

-- The constructor of a request with children.
unfoldable pub request_of : Text → Elements → Initialized Elements
request_of name es = initialize_children name [] es (name ∷ [])
