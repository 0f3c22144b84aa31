-- ===== src/Tests.antt =====
-- The theorems at concrete inputs, and runs of the definitions.
pub mod Packing
pub mod Buffers
pub mod Queries
pub mod Handlers
pub mod Logins
pub mod Statements
pub mod Polls
pub mod Executions
mod Compressions
mod Encryptions
