-- ===== src/Accounting/Books/Rules.antt =====
-- What the posting services of src/accounting do to the books is what `postEntry` does and what their
-- marks do: their other statements read rows.
use gestion_alquileres_backe.Transaction.{Action}
use mathlib.Core.Path.{subst}
use gestion_alquileres_backe.Accounting.Ledger.{post_entry}
use gestion_alquileres_backe.Transaction.Commit.{Lands, >>=-Keeps-Lands, zoom-Keeps, zoom-Lands}
use gestion_alquileres_backe.Transaction.Rules.{
  Keeps, >>=-Keeps, >>-Keeps, throw_when-Keeps, update-Keeps, pure-Keeps,
}
use gestion_alquileres_backe.Money.Currency.{Code}
use gestion_alquileres_backe.Prelude.Int.{ℤ}
use gestion_alquileres_backe.Accounting.Books.Postings.{
  post_and_mark, post_positive, ledger_of, with_ledger, mark_payment_posted, ledger_call,
  mark_refund_posted, mark_expense_posted, mark_expense_payment_posted, mark_statement_generated,
  mark_statement_transferred,
}
use gestion_alquileres_backe.Accounting.Tables.{LedgerTables, PostJournalEntryInput, LedgerError}
use gestion_alquileres_backe.Accounting.Books.{BooksTables, in_entry, bad_amount, AccountingStatus}
use gestion_alquileres_backe.Money.Decimal.{DecimalLib}
use gestion_alquileres_backe.Prelude.{ℕ, ◌≡◌, sym, refl}

-- `mark` writes none of the ledger's tables
abbrev pub LeavesLedger : (ℕ → BooksTables → BooksTables) → Type 0
LeavesLedger mark = (entry : ℕ) (b : BooksTables) → (mark entry b).ledger ≡ b.ledger

-- the marks of the posting services keep `P`
pub record KeptByMarks (P : BooksTables → Type 0) : Type 0 where
  pub payment_mark : (id entry : ℕ) (b : BooksTables) → P b → P (mark_payment_posted id entry b)
  pub refund_mark : (id entry : ℕ) (b : BooksTables) → P b → P (mark_refund_posted id entry b)
  pub expense_mark :
      (status : AccountingStatus) (id entry : ℕ) (b : BooksTables)
      → P b
      → P (mark_expense_posted status id entry b)
  pub expense_payment_mark :
      (id entry : ℕ) (b : BooksTables) → P b → P (mark_expense_payment_posted id entry b)
  pub generated_mark :
      (id entry : ℕ) (b : BooksTables) → P b → P (mark_statement_generated id entry b)
  pub transferred_mark :
      (id entry : ℕ) (b : BooksTables) → P b → P (mark_statement_transferred id entry b)

-- What a mark keeps of the ledger: all of it.
pub ledger-KeptByMarks : (P : LedgerTables → Type 0) → KeptByMarks (λ b. P b.ledger)
unfolding mark_payment_posted mark_refund_posted mark_expense_posted mark_expense_payment_posted
    mark_statement_generated mark_statement_transferred
ledger-KeptByMarks P = record {
  payment_mark = λ id entry b h. h;
  refund_mark = λ id entry b h. h;
  expense_mark = λ status id entry b h. h;
  expense_payment_mark = λ id entry b h. h;
  generated_mark = λ id entry b h. h;
  transferred_mark = λ id entry b h. h;
}

-- A call of the ledger keeps of the books what it keeps of the ledger.
pub ledger_call-Keeps :
    {A : Type 0} (P : LedgerTables → Type 0) {m : Action LedgerTables LedgerError A}
    → Keeps P m
    → Keeps (λ b. P b.ledger) (ledger_call m)
ledger_call-Keeps P k = zoom-Keeps {P = P} ledger_of with_ledger in_entry (λ l b. refl) k

module _ ⦃dec : DecimalLib⦄ {P : BooksTables → Type 0} where
  pub post_and_mark-Keeps :
      (input : PostJournalEntryInput) (uuid : Code) (mark : ℕ → BooksTables → BooksTables)
      → ((entry : ℕ) (b : BooksTables) → P b → P (mark entry b))
      → Keeps P (ledger_call (post_entry input uuid))
      → Keeps P (post_and_mark input uuid mark)
  unfolding post_and_mark
  post_and_mark-Keeps input uuid mark marks k =
      >>=-Keeps k
        (λ result. >>-Keeps (update-Keeps (mark result.id) (marks result.id)) (pure-Keeps result))

  pub post_positive-Keeps :
      (amount : ℤ) (input : PostJournalEntryInput) (uuid : Code)
      (mark : ℕ → BooksTables → BooksTables)
      → ((entry : ℕ) (b : BooksTables) → P b → P (mark entry b))
      → Keeps P (ledger_call (post_entry input uuid))
      → Keeps P (post_positive amount input uuid mark)
  unfolding post_positive
  post_positive-Keeps amount input uuid mark marks k =
      >>-Keeps (throw_when-Keeps _ bad_amount) (post_and_mark-Keeps input uuid mark marks k)

module _ ⦃dec : DecimalLib⦄ {P : LedgerTables → Type 0} where
  pub post_and_mark-Lands :
      (input : PostJournalEntryInput) (uuid : Code) (mark : ℕ → BooksTables → BooksTables)
      (b : BooksTables)
      → LeavesLedger mark
      → Lands b.ledger (post_entry input uuid) P
      → Lands b (post_and_mark input uuid mark) (λ x. P x.ledger)
  unfolding post_and_mark
  post_and_mark-Lands input uuid mark b leaves l =
      >>=-Keeps-Lands _ _ b
        (zoom-Lands {P = P} ledger_of with_ledger in_entry (post_entry input uuid) b (λ l b. refl)
          l)
        (λ result.
          >>-Keeps (update-Keeps (mark result.id) (λ b h. subst P (sym (leaves result.id b)) h))
            (pure-Keeps result))
