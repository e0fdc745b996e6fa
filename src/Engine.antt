-- ===== src/Engine.antt =====
-- internal/engine: what a restart derives about each cell, and when a running engine advances one.
pub mod Derive
pub mod Buried
pub mod Wreckage
pub mod Verdict
pub mod Quiet
pub mod Worker
pub mod Clock
pub mod Gates
pub mod Frontier
pub mod Controls
pub mod Leadership
pub mod Trust
pub mod StatusQueue
pub mod Rows
pub mod Runtime
pub mod Window
pub mod Refusals
pub mod Status
pub mod Repair
pub mod Advance
