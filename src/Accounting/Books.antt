-- ===== src/Accounting/Books.antt =====
-- What is posted to the ledger of src/accounting: the rows of payments, refunds, expenses, payments of
-- expenses and statements of owners, as the posting services read them, next to the ledger.
use gestion_alquileres_backe.Payments.Status.{PaymentStatus}
use gestion_alquileres_backe.Money.Currency.{Code}
use gestion_alquileres_backe.Prelude.Int.{ℤ}
use gestion_alquileres_backe.Accounting.Tables.{LedgerTables, LedgerError}
use gestion_alquileres_backe.Prelude.{ℕ, Option, List}
pub mod Entries
pub mod Postings
pub mod Accepted
pub mod Statement
pub mod Rules
pub mod Kept
pub mod Collision
pub mod Faultless
pub mod Payable
pub mod Returns

pub data PaymentType : Type 0 where
  rent deposit late_fee utility hoa_fee pet_fee parking_fee application_fee maintenance_fee
        other_type :
      PaymentType

pub data AccountingStatus : Type 0 where
  not_posted in_ledger paid_posted transferred_posted : AccountingStatus

-- a row of payments
pub record BookedPayment : Type 0 where
  pub id : ℕ
  pub contract_id : Option ℕ
  pub reservation_id : Option ℕ
  pub property_id : ℕ
  pub amount : ℤ
  pub payment_type : PaymentType
  pub payment_date : Code
  pub status : PaymentStatus
  pub accounting_status : AccountingStatus
  pub journal_entry_id : Option ℕ

-- a row of payment_refunds
pub record BookedRefund : Type 0 where
  pub id : ℕ
  pub payment_id : ℕ
  pub amount : ℤ
  pub refund_date : Code
  pub accounting_status : AccountingStatus
  pub journal_entry_id : Option ℕ

pub data ExpensePaymentStatus : Type 0 where
  unpaid paid_expense partially_paid reimbursed : ExpensePaymentStatus

-- a row of expenses
pub record BookedExpense : Type 0 where
  pub id : ℕ
  pub property_id : ℕ
  pub unit_id : Option ℕ
  pub vendor_id : Option ℕ
  pub amount : ℤ
  pub category : Code
  pub payment_status : ExpensePaymentStatus
  pub date : Code
  pub paid_date : Option Code
  pub description : Option Code
  pub accounting_status : AccountingStatus
  pub journal_entry_id : Option ℕ

-- a row of expense_payments
pub record BookedExpensePayment : Type 0 where
  pub id : ℕ
  pub expense_id : ℕ
  pub amount : ℤ
  pub payment_date : Code
  pub payment_method : Option Code
  pub reference_number : Option Code
  pub notes : Option Code
  pub accounting_status : AccountingStatus
  pub journal_entry_id : Option ℕ

-- a row of owner_statements
pub record BookedStatement : Type 0 where
  pub id : ℕ
  pub rental_owner_id : ℕ
  pub property_id : ℕ
  pub unit_id : Option ℕ
  pub gross_rent : ℤ
  pub maintenance_deduction : ℤ
  pub management_commission : ℤ
  pub net_amount : ℤ
  pub period_year : ℕ
  pub period_month : ℕ
  pub accounting_status : AccountingStatus
  pub journal_entry_id : Option ℕ
  pub transfer_journal_entry_id : Option ℕ

pub record BooksTables : Type 0 where
  pub ledger : LedgerTables
  pub payments : List BookedPayment
  pub payment_refunds : List BookedRefund
  pub expenses : List BookedExpense
  pub expense_payments : List BookedExpensePayment
  pub owner_statements : List BookedStatement

pub data PostingError : Type 0 where
  in_entry : LedgerError → PostingError
  no_such_payment no_such_refund no_such_expense no_such_expense_payment : PostingError
  no_such_statement bad_amount not_paid statement_off_balance : PostingError
