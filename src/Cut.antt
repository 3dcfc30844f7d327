-- ===== src/Cut.antt =====
-- cut(1), cut.go: lists of ranges, what they select, and the command.
pub mod Ranges
pub mod Lists
pub mod Select
pub mod Units
pub mod Command
pub mod Run
mod Examples
