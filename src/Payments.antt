-- ===== src/Payments.antt =====
-- The payments, frontend/src/features/payments: what is collected, what is refunded and what is left to refund.
pub mod Refunds
pub mod Section
pub mod Record
mod Tests
