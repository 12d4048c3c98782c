-- ===== src/Reservations.antt =====
-- Short-term reservations (src/reservations): their price, their life cycle and its refunds.
pub mod Pricing
pub mod Ical
pub mod Status
pub mod Cancellation
pub mod Tables
pub mod Refunds
pub mod Admin
pub mod Guest
pub mod Expiry
pub mod Nights
pub mod Claim
pub mod Season
