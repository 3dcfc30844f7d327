-- ===== src/Zstd.antt =====
-- zstd_raw.go: Zstandard frames of stored and repeated blocks, written and read back.
pub mod Writer
pub mod Reader
pub mod Blocks
pub mod Written
pub mod BlockRoundTrip
pub mod Delivery
pub mod RoundTrip
mod Examples
