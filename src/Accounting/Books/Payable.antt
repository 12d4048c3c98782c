-- ===== src/Accounting/Books/Payable.antt =====
-- An approved payment that the ledger of src/accounting takes, and what the posting services leave of it.
use gestion_alquileres_backe.Accounting.Ledger.Steps.{
  find_existing_entry-Lands, assert_month_open-Lands, insert_lines-Lands,
}
use mathlib.Core.Path.{subst}
use gestion_alquileres_backe.Accounting.Books.Rules.{KeptByMarks}
use gestion_alquileres_backe.Accounting.Validation.{validate_entry}
use gestion_alquileres_backe.Transaction.Commit.{
  lift->>-Keeps, Lands, Lands→Keeps, Keeps→Lands, query->>=-Lands,
}
use gestion_alquileres_backe.Accounting.Periods.{is_closed, find_period, period_of}
use gestion_alquileres_backe.Payments.Status.{payment_status_eq, approved}
use gestion_alquileres_backe.Accounting.Dates.{parse_accounting_date, YearMonth}
use gestion_alquileres_backe.Transaction.Rules.{Keeps, pure-Keeps}
use gestion_alquileres_backe.Accounting.Ledger.{
  post_unless, post_entry, insert_entry, new_entry, create_entry_number, is_active_code,
}
use gestion_alquileres_backe.Accounting.Books.Entries.{payment_entry, income_account}
use gestion_alquileres_backe.Accounting.Tables.{
  Account, LedgerTables, AccountingPeriod, LedgerError, PostJournalEntryInput, PostedJournalEntry,
}
use gestion_alquileres_backe.Accounting.Books.Postings.{
  mark_payment_posted, approved_payment_rows, mark_refund_posted, not_positive, mark_expense_posted,
  mark_expense_payment_posted, ledger_call, mark_statement_generated, mark_statement_transferred,
  with_ledger,
}
use gestion_alquileres_backe.Transaction.{
  zoom, Action, Session, Failure, unzoom, thrown, query_failed,
}
use gestion_alquileres_backe.Money.Decimal.{DecimalLib}
use gestion_alquileres_backe.Money.Currency.{Code, codes}
use gestion_alquileres_backe.Prelude.{
  List, ℕ, map, ◌≡◌, Bool, ◌∷◌, ap, none, if◌then◌else◌, ◌==◌, filter_by, [], ◌∙◌, ◌≢◌, false, ◌&&◌,
  Bool-cases, sym, some, inl, ok, Option, inr, Result, refl, err,
}
use gestion_alquileres_backe.Accounting.Books.{
  BookedPayment, BooksTables, not_posted, in_ledger, in_entry,
}

-- a payment without what the postings mark
abbrev pub unmarked : BookedPayment → BookedPayment
unmarked p = record p { accounting_status = not_posted; journal_entry_id = none }

abbrev pub unmarked_payments : BooksTables → List BookedPayment
unmarked_payments b = map unmarked b.payments

-- the parts of the ledger that no posting writes
abbrev pub HasSetup : List Account → List AccountingPeriod → LedgerTables → Type 0
HasSetup accounts periods t = (t.chart_of_accounts ≡ accounts) × (t.accounting_periods ≡ periods)

-- The account of a line is active in the chart.
abbrev pub IsActive : Code → List Account → Type 0
IsActive code chart =
    (account : Account) × (others : List Account) × (filter_by (is_active_code code) chart
      ≡ account ∷ others)

-- Payment `id` is approved, its amount is positive, its date is in a month that is not closed, and the two
-- accounts of its entry are active.
pub record Payable (id : ℕ) (b : BooksTables) : Type 0 where
  pub payment : BookedPayment
  pub others : List BookedPayment
  pub found : approved_payment_rows id b ≡ payment ∷ others
  pub positive : not_positive payment.amount ≡ false
  pub month : YearMonth
  pub dated : parse_accounting_date (payment_entry payment).entry_date ≡ ok month
  pub opened : is_closed (period_of month b.ledger) ≡ false
  pub cash_account : IsActive (codes "1100") b.ledger.chart_of_accounts
  pub income : IsActive (income_account payment.payment_type) b.ledger.chart_of_accounts

module _ ⦃dec : DecimalLib⦄ (accounts : List Account) (periods : List AccountingPeriod) where
  post_unless-HasSetup :
      (existing : Option PostedJournalEntry) (input : PostJournalEntryInput) (uuid : Code)
      (t : LedgerTables)
      → HasSetup accounts periods t
      → Lands t (post_unless existing input uuid) (HasSetup accounts periods)
  unfolding post_unless insert_entry
  post_unless-HasSetup (some existing) input uuid t h = Keeps→Lands _ t h (pure-Keeps existing)
  post_unless-HasSetup none input uuid t h =
      assert_month_open-Lands (parse_accounting_date input.entry_date) _ t (
        query->>=-Lands (insert_entry (new_entry input (create_entry_number uuid))) _ t (
          insert_lines-Lands t.next_entry_id input.lines _ _
            (λ rows a. Keeps→Lands _ _ h (pure-Keeps _))))

  pub post_entry-HasSetup :
      (input : PostJournalEntryInput) (uuid : Code)
      → Keeps (HasSetup accounts periods) (post_entry input uuid)
  unfolding post_entry
  post_entry-HasSetup input uuid = lift->>-Keeps (validate_entry input) _ (λ done v.
      Lands→Keeps _ (λ t h.
        find_existing_entry-Lands input.source_module input.source_id _ t
          (λ found. post_unless-HasSetup found input uuid t h)))

-- The ledger has no payments.
pub payments_of_zoom :
    {A : Type 0} (ps : List BookedPayment) (m : Action LedgerTables LedgerError A)
    → Keeps (λ b. unmarked_payments b ≡ ps) (ledger_call m)
unfolding zoom
payments_of_zoom {A} ps m = record {
  keep =
      λ s h. go s (m (record { store = s.store.ledger; queries = s.queries; fails = s.fails })) h;
}
  where
    go :
        (s : Session BooksTables) (r : Result (Failure LedgerError) A × Session LedgerTables)
        → unmarked_payments s.store ≡ ps
        → unmarked_payments (unzoom with_ledger in_entry s r).1.store ≡ ps
    go s (ok a, x) h = h
    go s (err (thrown e), x) h = h
    go s (err query_failed, x) h = h

unmarked_same :
    (id entry : ℕ) (payments : List BookedPayment)
    → map unmarked (
        map
          (λ p.
            if p.id == id
            then record p { accounting_status = in_ledger; journal_entry_id = some entry }
            else p)
          payments)
      ≡ map unmarked payments
unmarked_same id entry [] = refl
unmarked_same id entry (p ∷ ps) = elim (Bool-cases (p.id == id)) [
  | inl own ↦ rw own (ap (λ xs. unmarked p ∷ xs) (unmarked_same id entry ps))
  | inr other ↦ rw other (ap (λ xs. unmarked p ∷ xs) (unmarked_same id entry ps))
]

-- A mark leaves of the payments what is not marked.
pub payments-KeptByMarks : (ps : List BookedPayment) → KeptByMarks (λ b. unmarked_payments b ≡ ps)
unfolding mark_payment_posted mark_refund_posted mark_expense_posted mark_expense_payment_posted
    mark_statement_generated mark_statement_transferred
payments-KeptByMarks ps = record {
  payment_mark = λ id entry b h. unmarked_same id entry b.payments ∙ h;
  refund_mark = λ id entry b h. h;
  expense_mark = λ status id entry b h. h;
  expense_payment_mark = λ id entry b h. h;
  generated_mark = λ id entry b h. h;
  transferred_mark = λ id entry b h. h;
}

-- the payments and the setup are those of `before`, but for the marks
abbrev pub AsBefore : BooksTables → BooksTables → Type 0
AsBefore before b =
    (unmarked_payments b ≡ unmarked_payments before)
    × HasSetup before.ledger.chart_of_accounts before.ledger.accounting_periods b.ledger

abbrev is_approved_row : ℕ → BookedPayment → Bool
is_approved_row id p = p.id == id && payment_status_eq p.status approved

unmarked_rows :
    (id : ℕ) (ps : List BookedPayment)
    → map unmarked (filter_by (is_approved_row id) ps)
      ≡ filter_by (is_approved_row id) (map unmarked ps)
unmarked_rows id [] = refl
unmarked_rows id (p ∷ ps) = elim (Bool-cases (is_approved_row id p)) [
  | inl own ↦ rw (own, filter_by) (ap (λ xs. unmarked p ∷ xs) (unmarked_rows id ps))
  | inr other ↦ rw (other, filter_by) (unmarked_rows id ps)
]

first_of : BookedPayment → List BookedPayment → BookedPayment
first_of p [] = p
first_of p (q ∷ qs) = q

module _ (id : ℕ) (before b : BooksTables) (y : Payable id before) (h : AsBefore before b) where
  -- the rows are as they were
  same_rows : map unmarked (approved_payment_rows id b) ≡ unmarked y.payment ∷ map unmarked y.others
  same_rows =
      unmarked_rows id b.payments
      ∙ ap (filter_by (is_approved_row id)) h.0
      ∙ sym (unmarked_rows id before.payments)
      ∙ ap (map unmarked) y.found

  still-IsActive :
      (code : Code)
      → IsActive code before.ledger.chart_of_accounts
      → IsActive code b.ledger.chart_of_accounts
  still-IsActive code (account, others, e) =
      (account, others, ap (λ l. filter_by (is_active_code code) l) h.1.0 ∙ e)

  -- The first of the rows that are left is payable as it was.
  row-Payable :
      (rows : List BookedPayment)
      → approved_payment_rows id b ≡ rows
      → map unmarked rows ≡ unmarked y.payment ∷ map unmarked y.others
      → Payable id b
  unfolding payment_entry first_of
  row-Payable [] e k = absurd (no_row k)
    where
      no_row : [] ≢ unmarked y.payment ∷ map unmarked y.others
      no_row k = cc
  row-Payable (p ∷ ps) e k =
      let same = ap (first_of p) k in
      record {
        payment = p;
        others = ps;
        found = e;
        positive = ap (λ (q : BookedPayment). not_positive q.amount) same ∙ y.positive;
        month = y.month;
        dated =
            ap (λ (q : BookedPayment). parse_accounting_date (payment_entry q).entry_date) same
            ∙ y.dated;
        opened = ap (λ l. is_closed (find_period y.month.year y.month.month l)) h.1.1 ∙ y.opened;
        cash_account = still-IsActive (codes "1100") y.cash_account;
        income =
            subst
              (λ (q : BookedPayment).
                IsActive (income_account q.payment_type) b.ledger.chart_of_accounts)
              (sym same) (still-IsActive (income_account y.payment.payment_type) y.income);
      }

  -- What was payable is payable.
  pub Payable-stays : Payable id b
  Payable-stays = row-Payable (approved_payment_rows id b) refl same_rows
