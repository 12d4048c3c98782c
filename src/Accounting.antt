-- ===== src/Accounting.antt =====
-- src/accounting: the double-entry ledger (accounting-ledger.service.ts) with its periods
-- (accounting-periods.service.ts), and what posts to it: the processor of the outbox.
pub mod Tables
pub mod Validation
pub mod Dates
pub mod Periods
pub mod Ledger
pub mod Reversal
pub mod Closing
pub mod Calls
pub mod Books
pub mod Processor
