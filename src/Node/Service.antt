-- ===== src/Node/Service.antt =====
-- node/src/service.rs: the construction of the node.
pub mod Crates
pub mod Host
pub mod Log
pub mod Partial
pub mod Full
pub mod Effects
pub mod Tasks
pub mod Logs
pub mod Gives
pub mod Stages
pub mod Runs
pub mod Slots
pub mod Stops
pub mod Failures
pub mod Wiring
pub mod Example
mod Tests
