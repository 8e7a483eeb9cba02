-- ===== src/Lists.antt =====
-- The list pages of frontend/src/features.
pub mod Pages
mod Menus
pub mod Laws
mod Tests
