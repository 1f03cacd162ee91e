-- ===== src/Export.antt =====
-- The export engine (backend/app/export).
pub mod Engine
pub mod Materialize
mod Tests
