-- ===== src/Worker.antt =====
-- The task execution engine (backend/app/worker).
pub mod Model
pub mod Table
pub mod Session
pub mod Claim
pub mod Lease
pub mod Failure
pub mod Reaper
pub mod Scheduler
pub mod System
pub mod Runner
mod Tests
