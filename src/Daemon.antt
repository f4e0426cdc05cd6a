-- ===== src/Daemon.antt =====
-- The crate crates/oxibus-daemon: the message bus.
pub mod Registry
pub mod Policy
pub mod MatchRules
pub mod Bus
pub mod Driver
pub mod Dispatch
pub mod Connections
