-- ===== src/Payments.antt =====
-- Payments (src/payments): the life cycle of a payment and its refunds.
pub mod Status
pub mod Outbox
pub mod Refunds
pub mod Confirmation
