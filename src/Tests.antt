-- ===== src/Tests.antt =====
-- The theorems at concrete inputs.
mod BitFields
mod Names
mod Messages
mod Graphs
mod Checksums
mod Sessions
mod Mutations
mod Leaves
mod Static
mod Cases
mod Connects
mod Remotes
mod Logs
mod Monitors
