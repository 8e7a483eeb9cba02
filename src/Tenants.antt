-- ===== src/Tenants.antt =====
-- The gyms themselves, frontend/src/features/tenants.
pub mod Form
mod Tests
