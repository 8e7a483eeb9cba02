-- ===== src/Subscriptions.antt =====
-- The subscriptions of a member, frontend/src/features/subscriptions.
pub mod Types
pub mod Section
pub mod Dialogs
pub mod Page
pub mod OneLive
pub mod Laws
pub mod Answers
pub mod Taken
mod Tests
