-- ===== src/Supervisor.antt =====
-- The supervisor of the services: backend/apps/services/main.cpp.
pub mod Services
pub mod Changes
pub mod Invariants
pub mod Children
pub mod Tracking
pub mod Endings
pub mod Rounds
mod Runs
