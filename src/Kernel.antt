-- ===== src/Kernel.antt =====
-- The pipeline kernel (supervisor/src/pipeline/kernel).
pub mod Types
pub mod Support
pub mod Cursor
pub mod Evidence
pub mod Recovery
pub mod Resource
pub mod Lifecycle
pub mod Reducer
pub mod Store
pub mod Steering
pub mod Ancestry
pub mod Successor
pub mod Push
pub mod Evaluators
pub mod Proofs
mod Scenarios
mod Cases
