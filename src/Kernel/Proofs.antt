-- ===== src/Kernel/Proofs.antt =====
-- The theorems about the reducer and the store.
pub mod Emits
pub mod Step
pub mod Does
pub mod Facts
pub mod Each
pub mod Fences
pub mod Writes
pub mod Runs
pub mod Subject
pub mod Applies
pub mod Order
pub mod Transitions
pub mod Runtime
pub mod Retries
pub mod Returns
pub mod Refines
pub mod Cursor
