-- ===== src/Primitives.antt =====
-- boofuzz/primitives: the fuzzable leaf elements.
pub mod BitField
pub mod Bytes
pub mod Strings
pub mod Leaves
