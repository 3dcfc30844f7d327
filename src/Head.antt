-- ===== src/Head.antt =====
-- head(1), head.go: counts with suffixes, the first lines or bytes, and the command.
pub mod Count
pub mod Command
mod Examples
