-- ===== src/Accounting/Tables.antt =====
-- src/accounting/accounting.types.ts, the rows of src/accounting/accounting-ledger.service.ts and
-- accounting-periods.service.ts, and the tables they stand in.
use gestion_alquileres_backe.Money.Numeral.{Decimal}
use gestion_alquileres_backe.Prelude.Int.{ℤ}
use gestion_alquileres_backe.Money.Currency.{Code}
use gestion_alquileres_backe.Prelude.{Option, ℕ, List, Bool}

pub data Basis : Type 0 where
  cash accrual : Basis

pub data EntryStatus : Type 0 where
  draft posted reversed : EntryStatus

-- what a line is about
pub record References : Type 0 where
  pub property_id : Option ℕ
  pub unit_id : Option ℕ
  pub owner_id : Option ℕ
  pub tenant_user_id : Option ℕ
  pub vendor_id : Option ℕ
  pub contract_id : Option ℕ
  pub payment_id : Option ℕ
  pub expense_id : Option ℕ

pub record JournalLineInput : Type 0 where
  pub account_code : Code
  pub debit : Option Decimal
  pub credit : Option Decimal
  pub references : References
  pub memo : Option Code

-- a value of a JSON object
pub data JsonValue : Type 0 where
  json_number : ℕ → JsonValue
  json_text : Code → JsonValue
  json_null : JsonValue

-- an object, as its fields
abbrev pub Json : Type 0
Json = List (Code × JsonValue)

pub record PostJournalEntryInput : Type 0 where
  pub entry_date : Code
  pub description : Code
  pub source_module : Option Code
  pub source_id : Option Code
  pub basis : Option Basis
  pub metadata : Option Json
  pub lines : List JournalLineInput

pub record PostedJournalEntry : Type 0 where
  pub id : ℕ
  pub entry_number : Code

pub record ReverseJournalEntryInput : Type 0 where
  pub entry_id : ℤ
  pub reversal_date : Code
  pub description : Option Code

-- a row of journal_entries
pub record JournalEntry : Type 0 where
  pub id : ℕ
  pub entry_number : Code
  pub entry_date : Code
  pub description : Code
  pub source_module : Option Code
  pub source_id : Option Code
  pub basis : Basis
  pub status : EntryStatus
  pub reversed_entry_id : Option ℕ
  pub metadata : Json

-- a row of journal_lines; debit and credit are NUMERIC(14, 2), in cents
pub record JournalLine : Type 0 where
  pub journal_entry_id : ℕ
  pub account_id : ℕ
  pub references : References
  pub debit : ℤ
  pub credit : ℤ
  pub memo : Option Code

pub record Account : Type 0 where
  pub id : ℕ
  pub code : Code
  pub is_active : Bool

pub data PeriodStatus : Type 0 where
  open_period closed_period : PeriodStatus

-- a row of accounting_periods; a moment is a number
pub record AccountingPeriod : Type 0 where
  pub period_year : ℕ
  pub period_month : ℕ
  pub status : PeriodStatus
  pub closed_at : Option ℕ
  pub closed_by : Option ℕ
  pub reopened_at : Option ℕ
  pub reopened_by : Option ℕ
  pub reopen_reason : Option Code

pub record LedgerTables : Type 0 where
  pub journal_entries : List JournalEntry
  pub journal_lines : List JournalLine
  pub chart_of_accounts : List Account
  pub accounting_periods : List AccountingPeriod
  pub next_entry_id : ℕ

pub data LedgerError : Type 0 where
  few_lines no_account_code negative_amount not_one_sided not_balanced : LedgerError
  bad_entry_date bad_period_year bad_period_month period_is_closed no_reopen_reason : LedgerError
  account_not_found bad_entry_id entry_not_found few_original_lines : LedgerError
  period_not_found : LedgerError
