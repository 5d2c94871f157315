-- ===== src/Integration.antt =====
-- The integration subsystem (runtime/subsystems/integration): the differ and the orchestrator.
pub mod Values
pub mod Differ
pub mod Recorder
pub mod Cursors
pub mod Execute
mod Examples
