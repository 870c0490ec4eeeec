-- ===== src/Node/Command.antt =====
-- node/src/command.rs: the subcommands.
pub mod Names
mod Main
pub mod Host
pub mod Dispatch
pub mod Rules
pub mod Keeps
pub mod Steps
pub mod Given
pub mod Factory
pub mod Reasons
pub mod Laws
pub mod Runs
mod Tests
