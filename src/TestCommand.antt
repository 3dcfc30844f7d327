-- ===== src/TestCommand.antt =====
-- test(1) and [(1), testcmd.go: the operators, the parser, and the commands.
pub mod Operators
pub mod Parser
pub mod Syntax
pub mod Termination
pub mod RoundTrip
pub mod Run
mod Examples
