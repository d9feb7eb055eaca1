-- ===== src/Blocks.antt =====
-- boofuzz/blocks, boofuzz/fuzzable.py and boofuzz/fuzzable_block.py: messages as trees of fuzzable
-- elements.
pub mod Names
pub mod Build
pub mod Resolve
pub mod Element
pub mod Values
pub mod Render
pub mod Mutations
