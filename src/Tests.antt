-- ===== src/Tests.antt =====
-- Theorems at concrete inputs.
pub mod Samples
mod Terminals
mod Texts
mod Counters
mod Drives
mod Processes
mod Passes
mod Mains
