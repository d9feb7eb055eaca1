-- ===== src/Session.antt =====
-- boofuzz/sessions/session.py.
pub mod Paths
pub mod Control
pub mod Generate
pub mod Case
pub mod Target
pub mod CaseName
pub mod Connect
pub mod Depths
pub mod Monitors
