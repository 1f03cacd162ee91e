-- ===== src/Quality.antt =====
-- backend/app/quality: the engine that scores a run and recommends or refuses its release.
pub mod Types
pub mod Engine
pub mod Findings
pub mod Release
pub mod Statuses
mod Tests
