-- ===== src/App.antt =====
-- frontend/src/app/App.tsx with the guards and the sidebar of frontend/src/components/layout: which page
-- a session sees under which address.
pub mod Routes
pub mod Sidebar
pub mod Laws
pub mod Login
mod Tests
