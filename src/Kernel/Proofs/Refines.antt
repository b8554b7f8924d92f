-- ===== src/Kernel/Proofs/Refines.antt =====
-- The handlers of supervisor/src/pipeline/kernel/reducer.ts against the relation of steps.
mod Session
mod Attempt
mod External
mod Settle
mod Terminal
mod Dispatch
pub use Dispatch.{Accepted, reduce_kernel_command-Accepted}
