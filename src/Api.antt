-- ===== src/Api.antt =====
-- The functions of the `api.ts` files under frontend/src/features: which call of the client each makes.
-- The requests' bodies are JSON values, since the functions pass them on as they are.
pub mod Params
mod Tests
pub mod Members
pub mod Classes
pub mod Plans
pub mod Subscriptions
pub mod Payments
pub mod Attendance
pub mod Leads
pub mod Schedule
pub mod Coaches
pub mod Tenants
pub mod Users
pub mod Account
pub mod Stats
