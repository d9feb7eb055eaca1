-- ===== src/Helpers.antt =====
-- boofuzz/helpers.py.
pub mod Checksum
pub mod CaseName
