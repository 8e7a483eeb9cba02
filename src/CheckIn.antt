-- ===== src/CheckIn.antt =====
-- The check-in page, frontend/src/features/attendance/CheckInPage.tsx: which dialog a tap on a class opens, and
-- what the dialogs send.
pub mod Quota
pub mod Workspace
pub mod Cards
pub mod Feed
pub mod Scanner
pub mod Page
mod Tests
