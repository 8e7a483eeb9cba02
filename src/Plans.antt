-- ===== src/Plans.antt =====
-- The membership plans, frontend/src/features/plans: the form that creates and edits them.
pub mod Form
mod Tests
