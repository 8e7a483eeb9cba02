-- ===== src/Coaches.antt =====
-- The coaches of a class, frontend/src/features/coaches.
pub mod Weekdays
pub mod Assign
mod Tests
