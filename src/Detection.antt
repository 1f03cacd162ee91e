-- ===== src/Detection.antt =====
-- backend/app/detection: the engine that collects and stores the issues of a dataset.
pub mod Engine
pub mod Totals
mod Tests
