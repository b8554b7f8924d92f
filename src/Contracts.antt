-- ===== src/Contracts.antt =====
-- The contracts package: the values that the kernel exchanges (contracts/src).
pub mod Json
pub mod Formats
pub mod Records
pub mod Pipeline
pub mod Effects
pub mod Replay
pub mod Lifecycle
pub mod Validation
pub mod Plan
pub mod Manifest
mod Cases
