-- ===== src/Util.antt =====
-- util.go: helpers that the applets share.
pub mod Options
pub mod Quote
