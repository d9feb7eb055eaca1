-- ===== src/Blocks/Build.antt =====
-- Building a request (boofuzz/blocks/request.py): `push` and `pop`, on the dictionary's names and
-- the open blocks. `none` is a SullyRuntimeError.
pub mod Unique
pub mod Tree
pub mod Walk
use boofuzz.Base.{Bool, List, [], ◌∷◌, ◌++◌, Option, none, some, if◌then◌else◌}
use boofuzz.Base.Text.{Text, text_mem}
use boofuzz.Blocks.Names.{generate_context_path, qualified_name}

-- The request's name, the keys of its `names`, and the names of the open blocks, outermost first.
pub record Builder : Type 0 where
  pub name : Text
  pub names : List Text
  pub block_stack : List Text

-- What is pushed: its name, and whether it is a FuzzableBlock.
pub record Item : Type 0 where
  pub name : Text
  pub is_block : Bool

-- The constructor of a request with no children.
abbrev pub empty_request : Text → Builder
empty_request name = record { name = name; names = name ∷ []; block_stack = [] }

-- The qualified name that a pushed item gets.
abbrev pub name_of : Item → Builder → Text
name_of item b = qualified_name (generate_context_path b.name b.block_stack) item.name

-- An opened block is put on the block stack.
abbrev pub open_block : Item → List Text → List Text
open_block item block_stack = if item.is_block then block_stack ++ item.name ∷ [] else block_stack

unfoldable pub push : Item → Builder → Option Builder
push item b =
    if text_mem (name_of item b) b.names
    then none
    else some (record b {
      names = b.names ++ name_of item b ∷ [];
      block_stack = open_block item b.block_stack;
    })

abbrev pub without_last : List Text → List Text
without_last [] = []
without_last (t ∷ []) = []
without_last (t ∷ u ∷ ts) = t ∷ without_last (u ∷ ts)

abbrev pub pop_from : Builder → List Text → Option Builder
pop_from b [] = none
pop_from b (t ∷ ts) = some (record b { block_stack = without_last (t ∷ ts) })

-- `pop`: the last open block is closed.
unfoldable pub pop : Builder → Option Builder
pop b = pop_from b b.block_stack
