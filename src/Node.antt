-- ===== src/Node.antt =====
-- node/src: the chain specifications, the command line, the service and the benchmark helpers.
pub mod ChainSpec
pub mod Service
pub mod Rpc
pub mod Cli
pub mod Command
pub mod Benchmarking
pub mod Build
mod Tests
