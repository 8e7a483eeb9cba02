-- ===== src/Leads.antt =====
-- frontend/src/features/leads: the board of leads, and the page of one lead.
pub mod Types
pub mod Kanban
pub mod Detail
pub mod Laws
mod Tests
