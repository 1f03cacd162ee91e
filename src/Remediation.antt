-- ===== src/Remediation.antt =====
-- The remediation engine (backend/app/remediation).
pub mod Types
pub mod Engine
pub mod Partition
pub mod Soundness
mod Tests
