-- ===== src/Tr.antt =====
-- tr(1), tr.go: byte sets, SET specifications, the filters and the command.
pub mod Sets
pub mod Expand
pub mod Stream
pub mod Command
mod Examples
