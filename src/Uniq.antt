-- ===== src/Uniq.antt =====
-- uniq(1), uniq.go: groups of adjacent lines with equal keys.
pub mod Key
pub mod Emit
pub mod Groups
pub mod Command
pub mod Run
mod Examples
