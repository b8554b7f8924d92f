-- ===== src/Kernel/Reducer.antt =====
-- The reducer: one function per command (supervisor/src/pipeline/kernel/reducer.ts).
pub mod Bundle
pub mod Session
pub mod Attempt
pub mod External
pub mod Terminal
pub mod Settle
pub mod Dispatch
