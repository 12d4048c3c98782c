-- ===== src/Tests.antt =====
-- Concrete inputs at which the conditions of the theorems hold.
mod Money
mod Splits
mod Prices
mod Stays
mod Refunds
mod Claims
mod Seasons
mod Ledger
mod Postings
mod Events
mod Calendars
mod Confirmations
