-- ===== src/Xz.antt =====
-- xz_raw.go and the chunks of lzma.go: XZ streams of stored chunks, written and read back.
pub mod Check
pub mod Vli
pub mod Writer
pub mod Header
pub mod Chunks
pub mod Reader
pub mod Written
pub mod ReadHeaders
pub mod ReadChunks
pub mod Delivery
pub mod RoundTrip
pub mod Endless
mod Examples
