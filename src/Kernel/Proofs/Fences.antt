-- ===== src/Kernel/Proofs/Fences.antt =====
-- The integrity check of the store (supervisor/src/pipeline/kernel/store.ts) and the transitions of the reducer.
pub mod Writes
pub mod Sealed
pub mod Integrity
