-- ===== src/Template.antt =====
-- pallets/template/src: the pallet's configuration, its storage item, event, errors and calls.
pub mod Frame
pub mod Dispatch
pub mod Errors
pub mod Counter
pub mod Events
pub mod Contract
pub mod Repeat
pub mod Machine
pub mod Footprint
pub mod Order
pub mod Turns
pub mod Bags
pub mod Summary
pub mod Mock
pub mod Weights
pub mod Config
pub mod Benchmarking
pub mod Suite
mod Tests
