-- ===== src/Accounting/Books/Kept.antt =====
-- What a call of `postEntry` and the marks keep of the books, every posting service of src/accounting
-- keeps.
use gestion_alquileres_backe.Accounting.Books.Entries.{
  payment_entry, refund_entry, expense_entry, vendor_payment_entry, transfer_entry,
  expense_payment_entry, statement_entry,
}
use gestion_alquileres_backe.Accounting.Books.Rules.{
  post_positive-Keeps, post_and_mark-Keeps, KeptByMarks,
}
use gestion_alquileres_backe.Accounting.Books.{
  no_such_payment, no_such_refund, no_such_expense, no_such_expense_payment, no_such_statement,
  in_ledger, bad_amount, not_paid, statement_off_balance, paid_posted, BookedPayment, BookedRefund,
  BookedExpense, BookedExpensePayment, BookedStatement, BooksTables,
}
use gestion_alquileres_backe.Prelude.{[], ◌∷◌, List}
use gestion_alquileres_backe.Prelude.{ℕ}
use gestion_alquileres_backe.Accounting.Books.Postings.{
  post_approved_payment, post_payment_refund, post_expense, post_expense_payment,
  post_expense_vendor_payment, post_generated_statement, post_statement_transfer, post_payment,
  post_refund, post_found_expense, post_settled_expense, post_vendor_payment, post_statement,
  post_transfer, mark_payment_posted, mark_refund_posted, mark_expense_posted,
  mark_expense_payment_posted, mark_statement_generated, mark_statement_transferred,
  approved_payment_rows, refunds_of, expenses_of, expense_payments_of, statements_of, ledger_call,
}
use gestion_alquileres_backe.Accounting.Ledger.{post_entry}
use gestion_alquileres_backe.Transaction.Rules.{
  Keeps, >>=-Keeps, select-Keeps, throw-Keeps, >>-Keeps, throw_when-Keeps,
}
use gestion_alquileres_backe.Money.Currency.{Code}
use gestion_alquileres_backe.Accounting.Tables.{PostJournalEntryInput}
use gestion_alquileres_backe.Money.Decimal.{DecimalLib}

module _ ⦃dec : DecimalLib⦄ {P : BooksTables → Type 0}
    (keeps : (input : PostJournalEntryInput) (uuid : Code)
      → Keeps P (ledger_call (post_entry input uuid)))
    (marks : KeptByMarks P) where
  pub post_approved_payment-Keeps : (id : ℕ) (uuid : Code) → Keeps P (post_approved_payment id uuid)
  unfolding post_approved_payment post_payment mark_payment_posted
  post_approved_payment-Keeps id uuid = >>=-Keeps (select-Keeps (approved_payment_rows id)) go
    where
      go : (rows : List BookedPayment) → Keeps P (post_payment uuid rows)
      go [] = throw-Keeps no_such_payment
      go (p ∷ rest) =
          post_positive-Keeps p.amount (payment_entry p) uuid (mark_payment_posted p.id)
            (marks.payment_mark p.id) (keeps (payment_entry p) uuid)

  pub post_payment_refund-Keeps : (id : ℕ) (uuid : Code) → Keeps P (post_payment_refund id uuid)
  unfolding post_payment_refund post_refund mark_refund_posted
  post_payment_refund-Keeps id uuid = >>=-Keeps (select-Keeps (refunds_of id)) go
    where
      go : (rows : List (BookedRefund × BookedPayment)) → Keeps P (post_refund uuid rows)
      go [] = throw-Keeps no_such_refund
      go ((r, p) ∷ rest) =
          post_positive-Keeps r.amount (refund_entry r p) uuid (mark_refund_posted r.id)
            (marks.refund_mark r.id) (keeps (refund_entry r p) uuid)

  pub post_expense-Keeps : (id : ℕ) (uuid : Code) → Keeps P (post_expense id uuid)
  unfolding post_expense post_found_expense mark_expense_posted
  post_expense-Keeps id uuid = >>=-Keeps (select-Keeps (expenses_of id)) go
    where
      go : (rows : List BookedExpense) → Keeps P (post_found_expense uuid rows)
      go [] = throw-Keeps no_such_expense
      go (e ∷ rest) =
          post_positive-Keeps e.amount (expense_entry e) uuid (mark_expense_posted in_ledger e.id)
            (marks.expense_mark in_ledger e.id) (keeps (expense_entry e) uuid)

  pub post_expense_payment-Keeps : (id : ℕ) (uuid : Code) → Keeps P (post_expense_payment id uuid)
  unfolding post_expense_payment post_settled_expense mark_expense_posted
  post_expense_payment-Keeps id uuid = >>=-Keeps (select-Keeps (expenses_of id)) go
    where
      go : (rows : List BookedExpense) → Keeps P (post_settled_expense uuid rows)
      go [] = throw-Keeps no_such_expense
      go (e ∷ rest) = >>-Keeps (throw_when-Keeps _ bad_amount) (
          >>-Keeps (throw_when-Keeps _ not_paid) (
            post_and_mark-Keeps (expense_payment_entry e) uuid
              (mark_expense_posted paid_posted e.id) (marks.expense_mark paid_posted e.id)
              (keeps (expense_payment_entry e) uuid)))

  pub post_expense_vendor_payment-Keeps :
      (id : ℕ) (uuid : Code) → Keeps P (post_expense_vendor_payment id uuid)
  unfolding post_expense_vendor_payment post_vendor_payment mark_expense_payment_posted
  post_expense_vendor_payment-Keeps id uuid = >>=-Keeps (select-Keeps (expense_payments_of id)) go
    where
      go :
          (rows : List (BookedExpensePayment × BookedExpense))
          → Keeps P (post_vendor_payment uuid rows)
      go [] = throw-Keeps no_such_expense_payment
      go ((p, e) ∷ rest) =
          post_positive-Keeps p.amount (vendor_payment_entry p e) uuid
            (mark_expense_payment_posted p.id) (marks.expense_payment_mark p.id)
            (keeps (vendor_payment_entry p e) uuid)

  pub post_generated_statement-Keeps :
      (id : ℕ) (uuid : Code) → Keeps P (post_generated_statement id uuid)
  unfolding post_generated_statement post_statement mark_statement_generated
  post_generated_statement-Keeps id uuid = >>=-Keeps (select-Keeps (statements_of id)) go
    where
      go : (rows : List BookedStatement) → Keeps P (post_statement uuid rows)
      go [] = throw-Keeps no_such_statement
      go (s ∷ rest) = >>-Keeps (throw_when-Keeps _ bad_amount) (
          >>-Keeps (throw_when-Keeps _ statement_off_balance) (
            post_and_mark-Keeps (statement_entry s) uuid (mark_statement_generated s.id)
              (marks.generated_mark s.id) (keeps (statement_entry s) uuid)))

  pub post_statement_transfer-Keeps :
      (id : ℕ) (today uuid : Code) → Keeps P (post_statement_transfer id today uuid)
  unfolding post_statement_transfer post_transfer mark_statement_transferred
  post_statement_transfer-Keeps id today uuid = >>=-Keeps (select-Keeps (statements_of id)) go
    where
      go : (rows : List BookedStatement) → Keeps P (post_transfer today uuid rows)
      go [] = throw-Keeps no_such_statement
      go (s ∷ rest) =
          post_positive-Keeps s.net_amount (transfer_entry today s) uuid
            (mark_statement_transferred s.id) (marks.transferred_mark s.id)
            (keeps (transfer_entry today s) uuid)
