-- ===== src/Retention.antt =====
-- Output artifact retention (backend/app/worker/retention.py).
pub mod Model
pub mod Artifacts
pub mod Pass
pub mod Purge
pub mod DryRun
pub mod Tallies
pub mod Counts
pub mod Reports
pub mod Safety
pub mod Marks
mod Tests
