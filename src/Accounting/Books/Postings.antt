-- ===== src/Accounting/Books/Postings.antt =====
-- The posting services of src/accounting: accounting-payment-posting.service.ts,
-- accounting-payment-refund-posting.service.ts, accounting-expense-posting.service.ts and
-- accounting-owner-statement-posting.service.ts. Each reads its row, checks its amount, posts an entry
-- in a transaction of the ledger's own, and marks the row.
use gestion_alquileres_backe.Accounting.Books.Entries.{
  payment_entry, refund_entry, expense_entry, vendor_payment_entry, transfer_entry,
  expense_payment_entry, statement_entry,
}
use gestion_alquileres_backe.Accounting.Ledger.{post_entry}
use gestion_alquileres_backe.Payments.Status.{payment_status_eq, approved}
use gestion_alquileres_backe.Money.Currency.{Code}
use gestion_alquileres_backe.Accounting.Tables.{
  LedgerTables, PostJournalEntryInput, LedgerError, PostedJournalEntry,
}
use gestion_alquileres_backe.Money.Decimal.{DecimalLib}
use gestion_alquileres_backe.Prelude.Int.{ℤ, leb_ℤ, pos, is_zero, ◌-ℤ◌, ◌+ℤ◌, ltb_ℤ}
use gestion_alquileres_backe.Accounting.Books.{
  AccountingStatus, ExpensePaymentStatus, BookedStatement, BooksTables, BookedPayment,
  BookedExpense, PostingError, BookedRefund, BookedExpensePayment, in_entry, in_ledger,
  transferred_posted, paid_expense, reimbursed, no_such_payment, no_such_refund, no_such_expense,
  no_such_expense_payment, no_such_statement, bad_amount, not_paid, statement_off_balance,
  paid_posted,
}
use gestion_alquileres_backe.Prelude.{
  ℕ, List, Bool, filter_by, map, false, not, ◌==◌, ◌∷◌, if◌then◌else◌, true, ◌&&◌, ◌++◌, some, [],
  ◌||◌,
}
use gestion_alquileres_backe.Transaction.{
  Action, zoom, throw, select, ◌>>=◌, ◌>>◌, throw_when, update, pure,
}

abbrev pub ledger_of : BooksTables → LedgerTables
ledger_of b = b.ledger

abbrev pub with_ledger : LedgerTables → BooksTables → BooksTables
with_ledger l b = record b { ledger = l }

-- a call of the ledger
abbrev pub ledger_call :
    {A : Type 0} → Action LedgerTables LedgerError A → Action BooksTables PostingError A
ledger_call m = zoom ledger_of with_ledger in_entry m

-- `WHERE id = $1 AND status = 'APPROVED'`
abbrev pub approved_payment_rows : ℕ → BooksTables → List BookedPayment
approved_payment_rows id b =
    filter_by (λ p. p.id == id && payment_status_eq p.status approved) b.payments

-- `INNER JOIN payments p ON p.id = r.payment_id WHERE r.id = $1`
unfoldable pub joined_refunds :
    ℕ → List BookedPayment → List BookedRefund → List (BookedRefund × BookedPayment)
joined_refunds id payments [] = []
joined_refunds id payments (r ∷ rs) =
    let rest = joined_refunds id payments rs in
    if r.id == id
    then map (λ p. (r, p)) (filter_by (λ p. p.id == r.payment_id) payments) ++ rest
    else rest

-- `WHERE id = $1`
abbrev pub expenses_of : ℕ → BooksTables → List BookedExpense
expenses_of id b = filter_by (λ e. e.id == id) b.expenses

-- `INNER JOIN expenses e ON e.id = ep.expense_id WHERE ep.id = $1`
unfoldable pub joined_expense_payments :
    ℕ → List BookedExpense → List BookedExpensePayment → List (BookedExpensePayment × BookedExpense)
joined_expense_payments id expenses [] = []
joined_expense_payments id expenses (p ∷ ps) =
    let rest = joined_expense_payments id expenses ps in
    if p.id == id
    then map (λ e. (p, e)) (filter_by (λ e. e.id == p.expense_id) expenses) ++ rest
    else rest

abbrev pub refunds_of : ℕ → BooksTables → List (BookedRefund × BookedPayment)
refunds_of id b = joined_refunds id b.payments b.payment_refunds

abbrev pub expense_payments_of : ℕ → BooksTables → List (BookedExpensePayment × BookedExpense)
expense_payments_of id b = joined_expense_payments id b.expenses b.expense_payments

abbrev pub statements_of : ℕ → BooksTables → List BookedStatement
statements_of id b = filter_by (λ s. s.id == id) b.owner_statements

-- `UPDATE … SET accounting_status = …, journal_entry_id = $1 WHERE id = $2`, of each table
unfoldable pub mark_payment_posted : ℕ → ℕ → BooksTables → BooksTables
mark_payment_posted id entry b = record b {
  payments =
      map
        (λ p.
          if p.id == id
          then record p { accounting_status = in_ledger; journal_entry_id = some entry }
          else p)
        b.payments;
}

unfoldable pub mark_refund_posted : ℕ → ℕ → BooksTables → BooksTables
mark_refund_posted id entry b = record b {
  payment_refunds =
      map
        (λ r.
          if r.id == id
          then record r { accounting_status = in_ledger; journal_entry_id = some entry }
          else r)
        b.payment_refunds;
}

unfoldable pub mark_expense_posted : AccountingStatus → ℕ → ℕ → BooksTables → BooksTables
mark_expense_posted status id entry b = record b {
  expenses =
      map
        (λ e.
          if e.id == id
          then record e { accounting_status = status; journal_entry_id = some entry }
          else e)
        b.expenses;
}

unfoldable pub mark_expense_payment_posted : ℕ → ℕ → BooksTables → BooksTables
mark_expense_payment_posted id entry b = record b {
  expense_payments =
      map
        (λ p.
          if p.id == id
          then record p { accounting_status = in_ledger; journal_entry_id = some entry }
          else p)
        b.expense_payments;
}

unfoldable pub mark_statement_generated : ℕ → ℕ → BooksTables → BooksTables
mark_statement_generated id entry b = record b {
  owner_statements =
      map
        (λ s.
          if s.id == id
          then record s { accounting_status = in_ledger; journal_entry_id = some entry }
          else s)
        b.owner_statements;
}

unfoldable pub mark_statement_transferred : ℕ → ℕ → BooksTables → BooksTables
mark_statement_transferred id entry b = record b {
  owner_statements =
      map
        (λ s.
          if s.id == id
          then record s {
            accounting_status = transferred_posted;
            transfer_journal_entry_id = some entry;
          }
          else s)
        b.owner_statements;
}

-- `amount <= 0`
abbrev pub not_positive : ℤ → Bool
not_positive amount = leb_ℤ amount (pos 0)

-- `payment_status !== 'PAID' && payment_status !== 'REIMBURSED'`
abbrev pub is_unsettled : ExpensePaymentStatus → Bool
is_unsettled paid_expense = false
is_unsettled reimbursed = false
is_unsettled _ = true

-- `grossCents !== creditCents`
abbrev pub is_uneven : BookedStatement → Bool
is_uneven s =
    not (
      is_zero
        (s.gross_rent -ℤ (s.management_commission +ℤ s.net_amount +ℤ s.maintenance_deduction)))

module _ ⦃dec : DecimalLib⦄ where
  -- the entry, and then the row's mark
  unfoldable pub post_and_mark :
      PostJournalEntryInput
      → Code
      → (ℕ → BooksTables → BooksTables)
      → Action BooksTables PostingError PostedJournalEntry
  post_and_mark input uuid mark = do
    result ← ledger_call (post_entry input uuid)
    update (mark result.id)
    pure result

  -- behind a guard on the row's amount
  unfoldable pub post_positive :
      ℤ
      → PostJournalEntryInput
      → Code
      → (ℕ → BooksTables → BooksTables)
      → Action BooksTables PostingError PostedJournalEntry
  post_positive amount input uuid mark = do
    throw_when (not_positive amount) bad_amount
    post_and_mark input uuid mark

  unfoldable pub post_payment :
      Code → List BookedPayment → Action BooksTables PostingError PostedJournalEntry
  post_payment uuid [] = throw no_such_payment
  post_payment uuid (p ∷ rest) =
      post_positive p.amount (payment_entry p) uuid (mark_payment_posted p.id)

  -- `postApprovedPayment`
  unfoldable pub post_approved_payment :
      ℕ → Code → Action BooksTables PostingError PostedJournalEntry
  post_approved_payment id uuid = select (approved_payment_rows id) >>= post_payment uuid

  unfoldable pub post_refund :
      Code
      → List (BookedRefund × BookedPayment)
      → Action BooksTables PostingError PostedJournalEntry
  post_refund uuid [] = throw no_such_refund
  post_refund uuid ((r, p) ∷ rest) =
      post_positive r.amount (refund_entry r p) uuid (mark_refund_posted r.id)

  -- `postPaymentRefund`
  unfoldable pub post_payment_refund : ℕ → Code → Action BooksTables PostingError PostedJournalEntry
  post_payment_refund id uuid = select (refunds_of id) >>= post_refund uuid

  unfoldable pub post_found_expense :
      Code → List BookedExpense → Action BooksTables PostingError PostedJournalEntry
  post_found_expense uuid [] = throw no_such_expense
  post_found_expense uuid (e ∷ rest) =
      post_positive e.amount (expense_entry e) uuid (mark_expense_posted in_ledger e.id)

  -- `postExpense`
  unfoldable pub post_expense : ℕ → Code → Action BooksTables PostingError PostedJournalEntry
  post_expense id uuid = select (expenses_of id) >>= post_found_expense uuid

  unfoldable pub post_settled_expense :
      Code → List BookedExpense → Action BooksTables PostingError PostedJournalEntry
  post_settled_expense uuid [] = throw no_such_expense
  post_settled_expense uuid (e ∷ rest) = do
    throw_when (not_positive e.amount) bad_amount
    throw_when (is_unsettled e.payment_status) not_paid
    post_and_mark (expense_payment_entry e) uuid (mark_expense_posted paid_posted e.id)

  -- `postExpensePayment`
  unfoldable pub post_expense_payment :
      ℕ → Code → Action BooksTables PostingError PostedJournalEntry
  post_expense_payment id uuid = select (expenses_of id) >>= post_settled_expense uuid

  unfoldable pub post_vendor_payment :
      Code
      → List (BookedExpensePayment × BookedExpense)
      → Action BooksTables PostingError PostedJournalEntry
  post_vendor_payment uuid [] = throw no_such_expense_payment
  post_vendor_payment uuid ((p, e) ∷ rest) =
      post_positive p.amount (vendor_payment_entry p e) uuid (mark_expense_payment_posted p.id)

  -- `postExpenseVendorPayment`
  unfoldable pub post_expense_vendor_payment :
      ℕ → Code → Action BooksTables PostingError PostedJournalEntry
  post_expense_vendor_payment id uuid = select (expense_payments_of id) >>= post_vendor_payment uuid

  unfoldable pub post_statement :
      Code → List BookedStatement → Action BooksTables PostingError PostedJournalEntry
  post_statement uuid [] = throw no_such_statement
  post_statement uuid (s ∷ rest) = do
    throw_when (not_positive s.gross_rent || ltb_ℤ s.net_amount (pos 0)) bad_amount
    throw_when (is_uneven s) statement_off_balance
    post_and_mark (statement_entry s) uuid (mark_statement_generated s.id)

  -- `postGeneratedStatement`
  unfoldable pub post_generated_statement :
      ℕ → Code → Action BooksTables PostingError PostedJournalEntry
  post_generated_statement id uuid = select (statements_of id) >>= post_statement uuid

  unfoldable pub post_transfer :
      Code → Code → List BookedStatement → Action BooksTables PostingError PostedJournalEntry
  post_transfer today uuid [] = throw no_such_statement
  post_transfer today uuid (s ∷ rest) =
      post_positive s.net_amount (transfer_entry today s) uuid (mark_statement_transferred s.id)

  -- `postStatementTransfer`, on the day `today`
  unfoldable pub post_statement_transfer :
      ℕ → Code → Code → Action BooksTables PostingError PostedJournalEntry
  post_statement_transfer id today uuid = select (statements_of id) >>= post_transfer today uuid
