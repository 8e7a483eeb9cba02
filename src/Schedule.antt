-- ===== src/Schedule.antt =====
-- The schedule, frontend/src/features/schedule: the page with its week, and three of its dialogs.
pub mod WeekGrid
pub mod Week
pub mod Bulk
pub mod Picker
pub mod Template
mod Tests
