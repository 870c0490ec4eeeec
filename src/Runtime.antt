-- ===== src/Runtime.antt =====
-- runtime/src: the constants, the genesis presets and the interfaces of the runtime.
pub mod Currency
pub mod Version
pub mod Time
pub mod Genesis
pub mod Example
pub mod Apis
pub mod Blocks
pub mod Calls
pub mod Aggregates
pub mod Types
pub mod Config
pub mod Build
pub mod Fees
mod Charges
mod Tests
