-- ===== src/Jobs.antt =====
-- The jobs subsystem (runtime/subsystems/jobs), with its in-memory backend.
pub mod Types
pub mod Template
pub mod Retry
pub mod Keys
pub mod Steps
pub mod StepOn
pub mod State
pub mod Start
pub mod Claim
pub mod Lifecycle
pub mod Spawn
pub mod Queue
pub mod Change
pub mod Reach
pub mod Cascade
pub mod RunService
pub mod Pools
mod Examples
