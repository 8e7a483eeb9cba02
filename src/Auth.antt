-- ===== src/Auth.antt =====
-- frontend/src/features/auth, and the guards of frontend/src/components/layout and the route table
-- of frontend/src/app/App.tsx that rest on it.
pub mod Types
pub mod Permissions
pub mod Session
mod Tests
