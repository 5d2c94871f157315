-- ===== src/Bridge.antt =====
-- The event-to-job bridge (runtime/subsystems/bridge), with its in-memory repository.
pub mod Deliveries
pub mod Registry
pub mod Drain
pub mod Handler
pub mod Flow
mod Examples
