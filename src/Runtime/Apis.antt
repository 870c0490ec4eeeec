-- ===== src/Runtime/Apis.antt =====
-- runtime/src/apis.rs: the interfaces that the runtime implements, one module for each group of
-- them. A function reads or changes the storage of the chain, and passes its arguments to the
-- pallets and to `Executive`, unless its module says otherwise.
pub mod Execution
pub mod Consensus
pub mod Proofs
pub mod Payment
pub mod CallPayment
pub mod Tools
pub mod Genesis
