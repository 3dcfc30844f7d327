-- ===== src/Tabs.antt =====
-- expand.go and unexpand.go: tab stops, and spaces for tabs and back.
pub mod Stops
pub mod Args
pub mod Expand
pub mod Unexpand
pub mod Run
pub mod Columns
pub mod Pending
pub mod Rounds
pub mod BlankRounds
pub mod RoundTrip
pub mod NoTabs
mod Examples
