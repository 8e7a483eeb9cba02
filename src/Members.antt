-- ===== src/Members.antt =====
-- The form of a member, frontend/src/features/members/MemberForm.tsx, with the page of one member and the server's
-- update.
pub mod Form
mod Tests
