-- ===== src/Validation.antt =====
-- The validation engine (backend/app/validation).
pub mod Types
pub mod Engine
pub mod Reconcile
mod Tests
