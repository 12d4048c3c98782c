-- ===== src/Accounting/Books/Returns.antt =====
-- The posting of an approved payment that the ledger of src/accounting takes returns, when no query fails.
use gestion_alquileres_backe.Accounting.Books.{BooksTables, bad_amount, in_entry}
use gestion_alquileres_backe.Accounting.Books.Entries.{payment_entry}
use gestion_alquileres_backe.Accounting.Books.Accepted.{
  entry_of_posting, postings_accepted, of_payment,
}
use gestion_alquileres_backe.Accounting.Validation.{validate_entry}
use gestion_alquileres_backe.Accounting.Books.Postings.{
  post_approved_payment, not_positive, post_payment, post_positive, post_and_mark,
  mark_payment_posted, with_ledger, approved_payment_rows, ledger_of,
}
use gestion_alquileres_backe.Prelude.Int.{ℤ, pos, ◌<ℤ◌}
use mathlib.Core.Bool.{true}
use mathlib.Core.Option.{none}
use gestion_alquileres_backe.Accounting.Dates.{YearMonth, parse_accounting_date}
use gestion_alquileres_backe.Accounting.Books.Payable.{IsActive, Payable}
use gestion_alquileres_backe.Accounting.Periods.{
  assert_month_open, is_closed, period_of, refuse_closed,
}
use gestion_alquileres_backe.Money.Currency.{Code}
use gestion_alquileres_backe.Accounting.Tables.{
  JournalLineInput, LedgerTables, PostedJournalEntry, PostJournalEntryInput, LedgerError, Account,
  period_is_closed,
}
use gestion_alquileres_backe.Transaction.Rules.{
  Yields, >>=-Yields, pure-Yields, select-Yields, >>-Yields, NoFaults, update-Yields,
  throw_when-Yields, query-Yields, transaction-Yields,
}
use gestion_alquileres_backe.Money.Decimal.{DecimalLib}
use gestion_alquileres_backe.Accounting.Ledger.{
  find_account_id, find_existing_entry, account_found, insert_lines, post_unless, append_line,
  insert_entry, active_accounts, journal_line, first_entry, has_source, is_given, new_entry,
  post_entry, create_entry_number,
}
use gestion_alquileres_backe.Prelude.{
  List, Result, Option, ◌≡◌, ok, ◌∷◌, ℕ, refl, [], Bool, err, if◌then◌else◌, ap, filter_by, false,
  ◌∙◌, some, ◌&&◌, true, arith,
}
use gestion_alquileres_backe.Transaction.{
  lift, zoom, Action, Session, Failure, unzoom, thrown, select, query_failed, pure,
}

module _ {S E A : Type 0} where
  lift_ok-Yields : (r : Result E A) (a : A) (t : S) → r ≡ ok a → Yields (lift r) t (ok a) t
  unfolding lift
  lift_ok-Yields r a t h =
      rw h (record { result = λ s e n. refl; store = λ s e n. e; faultless = λ s e n. n })

module _ {S L E F A : Type 0} (get : S → L) (put : L → S → S) (wrap : E → F) where
  pub zoom-Yields :
      {m : Action L E A} {l : L} {a : A} (t : S)
      → Yields m (get t) (ok a) l
      → Yields (zoom get put wrap m) t (ok a) (put l t)
  unfolding zoom
  zoom-Yields {m} {l} {a} t y = record {
    result = λ s e n. answer s (m (part s)) (y.result (part s) (ap get e) n);
    store = λ s e n.
        stored s (m (part s)) (y.result (part s) (ap get e) n)
        ∙ ap (λ x. put x s.store) (y.store (part s) (ap get e) n)
        ∙ ap (put l) e;
    faultless = λ s e n. calm s (m (part s)) (y.faultless (part s) (ap get e) n);
  }
    where
      part : Session S → Session L
      part s = record { store = get s.store; queries = s.queries; fails = s.fails }

      answer :
          (s : Session S) (r : Result (Failure E) A × Session L)
          → r.0 ≡ ok a
          → (unzoom put wrap s r).0 ≡ ok a
      answer s (ok b, x) h = cc
      answer s (err (thrown e), x) h = cc
      answer s (err query_failed, x) h = cc

      stored :
          (s : Session S) (r : Result (Failure E) A × Session L)
          → r.0 ≡ ok a
          → (unzoom put wrap s r).1.store ≡ put r.1.store s.store
      stored s (ok b, x) h = refl
      stored s (err (thrown e), x) h = refl
      stored s (err query_failed, x) h = refl

      calm :
          (s : Session S) (r : Result (Failure E) A × Session L)
          → NoFaults r.1
          → NoFaults (unzoom put wrap s r).1
      calm s (ok b, x) n = n
      calm s (err (thrown e), x) n = n
      calm s (err query_failed, x) n = n

-- The lines' accounts are active.
abbrev pub AreActive : List JournalLineInput → List Account → Type 0
AreActive [] chart = Unit {0}
AreActive (line ∷ lines) chart = IsActive line.account_code chart × AreActive lines chart

-- Some result and some tables come of it.
abbrev pub Returns : {S E A : Type 0} → Action S E A → S → Type 0
Returns {S} {E} {A} m t = (a : A) × (t' : S) × Yields m t (ok a) t'

find_account_id-Yields :
    (code : Code) (t : LedgerTables)
    → IsActive code t.chart_of_accounts
    → (account : ℕ) × Yields (find_account_id code) t (ok account) t
unfolding find_account_id account_found
find_account_id-Yields code t (account, others, e) = (
  account.id,
  >>=-Yields account_found (select-Yields (active_accounts code) t)
      (rw e (pure-Yields account.id t)),
)

find_existing_entry-Yields :
    (source_module source_id : Option Code) (t : LedgerTables)
    → (found : Option PostedJournalEntry) × Yields
        (find_existing_entry source_module source_id)
        t
        (ok found)
        t
unfolding find_existing_entry
find_existing_entry-Yields source_module source_id t =
    go (is_given source_module && is_given source_id)
  where
    go :
        (b : Bool)
        → (found : Option PostedJournalEntry) × Yields {E = LedgerError}
            (if b
              then select (λ (x : LedgerTables).
                first_entry (filter_by (has_source source_module source_id) x.journal_entries))
              else pure none)
            t
            (ok found)
            t
    go true = (_, select-Yields _ t)
    go false = (none, pure-Yields none t)

module _ ⦃dec : DecimalLib⦄ where
  insert_lines-Yields :
      (entry : ℕ) (lines : List JournalLineInput) (t : LedgerTables)
      → AreActive lines t.chart_of_accounts
      → (t' : LedgerTables) × Yields (insert_lines entry lines) t (ok tt) t'
  unfolding insert_lines append_line
  insert_lines-Yields entry [] t h = (t, pure-Yields tt t)
  insert_lines-Yields entry (line ∷ lines) t (h, hs) =
      let (account, y) = find_account_id-Yields line.account_code t h in
      let row = journal_line entry account line in
      let (t', z) = insert_lines-Yields entry lines (append_line row t) hs in
      (
        t',
        >>=-Yields _ y (>>-Yields (insert_lines entry lines) (update-Yields (append_line row) t) z),
      )

  assert_open-Yields :
      (date : Result LedgerError YearMonth) (month : YearMonth) (t : LedgerTables)
      → date ≡ ok month
      → is_closed (period_of month t) ≡ false
      → Yields (assert_month_open date) t (ok tt) t
  unfolding assert_month_open
  assert_open-Yields date month t d o = rw d (
      >>=-Yields refuse_closed (select-Yields (period_of month) t)
        (throw_when-Yields (is_closed (period_of month t)) period_is_closed t o))

  post_unless-Returns :
      (existing : Option PostedJournalEntry) (input : PostJournalEntryInput) (uuid : Code)
      (month : YearMonth) (t : LedgerTables)
      → parse_accounting_date input.entry_date ≡ ok month
      → is_closed (period_of month t) ≡ false
      → AreActive input.lines t.chart_of_accounts
      → Returns (post_unless existing input uuid) t
  unfolding post_unless assert_month_open insert_entry
  post_unless-Returns (some e) input uuid month t d o h = (e, t, pure-Yields e t)
  post_unless-Returns none input uuid month t d o h =
      let row = new_entry input (create_entry_number uuid) in
      let t1 = (insert_entry row t).1 in
      let (t2, z) = insert_lines-Yields t.next_entry_id input.lines t1 h in
      let entry : PostedJournalEntry = record {
        id = t.next_entry_id;
        entry_number = create_entry_number uuid;
      } in
      (
        entry,
        t2,
        >>-Yields _ (assert_open-Yields (parse_accounting_date input.entry_date) month t d o) (
            >>=-Yields _ (query-Yields (insert_entry row) t)
              (>>-Yields _ z (pure-Yields entry t2))),
      )

  post_entry-Returns :
      (input : PostJournalEntryInput) (uuid : Code) (month : YearMonth) (t : LedgerTables)
      → validate_entry input ≡ ok tt
      → parse_accounting_date input.entry_date ≡ ok month
      → is_closed (period_of month t) ≡ false
      → AreActive input.lines t.chart_of_accounts
      → Returns (post_entry input uuid) t
  unfolding post_entry
  post_entry-Returns input uuid month t v d o h =
      let (found, y) = find_existing_entry-Yields input.source_module input.source_id t in
      let (e, t', z) = post_unless-Returns found input uuid month t d o h in
      (
        e,
        t',
        >>-Yields _ (lift_ok-Yields (validate_entry input) tt t v)
            (transaction-Yields (>>=-Yields _ y z)),
      )

  positive_amount : (amount : ℤ) → not_positive amount ≡ false → pos 0 <ℤ amount
  positive_amount amount h = ground arith

  -- The posting of a payable payment returns.
  pub post_approved_payment-Returns :
      (id : ℕ) (uuid : Code) (b : BooksTables)
      → Payable id b
      → Returns (post_approved_payment id uuid) b
  unfolding post_approved_payment post_payment post_positive post_and_mark entry_of_posting
      payment_entry
  post_approved_payment-Returns id uuid b y =
      let p = y.payment in
      let v = postings_accepted (of_payment p) (positive_amount p.amount y.positive) in
      let (e, l, z) =
        post_entry-Returns (payment_entry p) uuid y.month b.ledger v y.dated y.opened
          (y.cash_account, (y.income, tt)) in
      let marks = mark_payment_posted p.id e.id in
      let b1 = with_ledger l b in
      (
        e,
        marks b1,
        >>=-Yields (post_payment uuid) (select-Yields (approved_payment_rows id) b) (
            rw y.found (
              >>-Yields _ (throw_when-Yields (not_positive p.amount) bad_amount b y.positive) (
                >>=-Yields _ (zoom-Yields ledger_of with_ledger in_entry b z)
                  (>>-Yields _ (update-Yields marks b1) (pure-Yields e (marks b1)))))),
      )
