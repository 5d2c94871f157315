-- ===== src/Events.antt =====
-- The events subsystem (runtime/subsystems/events), with its in-memory bus.
pub mod Types
pub mod Bus
mod Examples
