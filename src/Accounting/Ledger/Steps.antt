-- ===== src/Accounting/Ledger/Steps.antt =====
-- What the parts of `postEntry` read, and what its loop has appended when it ends.
use mathlib.Core.Bool.{true, false, true≢false}
use mathlib.Core.List.{append-nil, append_assoc}
use mathlib.Core.Path.{subst}
use gestion_alquileres_backe.Accounting.Dates.{YearMonth}
use gestion_alquileres_backe.Transaction.Commit.{
  Lands, pure->>-Lands, throw->>=-Lands, >>=-assoc-Lands, pure->>=-Lands, select->>=-Lands,
  throw_when->>-Lands, update->>-Lands,
}
use gestion_alquileres_backe.Money.Currency.{Code}
use gestion_alquileres_backe.Transaction.{◌>>◌, Action, ◌>>=◌, select, pure, update}
use gestion_alquileres_backe.Accounting.Periods.{
  assert_month_open, period_of, refuse_closed, is_closed,
}
use gestion_alquileres_backe.Accounting.Ledger.{
  find_existing_entry, find_account_id, insert_lines, account_found, journal_line, first_entry,
  has_source, is_active_code, is_given, entry_of, active_accounts, append_line,
}
use gestion_alquileres_backe.Accounting.Tables.{
  LedgerTables, JournalLine, JournalLineInput, PostedJournalEntry, LedgerError, Account,
  account_not_found, period_is_closed,
}
use gestion_alquileres_backe.Prelude.{
  List, ℕ, ◌++◌, Option, Result, err, Bool, ◌∷◌, if◌then◌else◌, ok, [], ◌≡◌, filter_by, none, ◌&&◌,
  true, sym, refl, ◌∙◌,
}
use gestion_alquileres_backe.Money.Decimal.{DecimalLib}

-- the lines that the loop appends for its lines, one for each, on the accounts that it found
abbrev pub Appended : ⦃dec : DecimalLib⦄ → ℕ → List JournalLineInput → List JournalLine → Type 0
Appended entry [] [] = Unit {0}
Appended entry (line ∷ lines) (row ∷ rows) =
    ((account : ℕ) × (row ≡ journal_line entry account line)) × Appended entry lines rows
Appended entry _ _ = ⊥

abbrev pub with_lines : List JournalLine → LedgerTables → LedgerTables
with_lines rows t = record t { journal_lines = t.journal_lines ++ rows }

module _ {A : Type 0} {P : LedgerTables → Type 0} where
  pub find_existing_entry-Lands :
      (source_module source_id : Option Code)
      (k : Option PostedJournalEntry → Action LedgerTables LedgerError A) (t : LedgerTables)
      → ((found : Option PostedJournalEntry) → Lands t (k found) P)
      → Lands t (find_existing_entry source_module source_id >>= k) P
  unfolding find_existing_entry
  find_existing_entry-Lands source_module source_id k t l =
      go (is_given source_module && is_given source_id)
    where
      go :
          (b : Bool)
          → Lands t
              ((if b
                  then select (λ (x : LedgerTables).
                    first_entry (filter_by (has_source source_module source_id) x.journal_entries))
                  else pure none)
                >>= k)
              P
      go true = select->>=-Lands (entry_of source_module source_id) k t (l _)
      go false = pure->>=-Lands none k t (l none)

  pub assert_month_open-Lands :
      (date : Result LedgerError YearMonth) (k : Action LedgerTables LedgerError A)
      (t : LedgerTables)
      → Lands t k P
      → Lands t (assert_month_open date >> k) P
  unfolding assert_month_open ◌>>◌
  assert_month_open-Lands (err e) k t l = throw->>=-Lands e (λ _. k) t
  assert_month_open-Lands (ok date) k t l =
      >>=-assoc-Lands (select (period_of date)) refuse_closed (λ _. k) t
        (select->>=-Lands (period_of date) (λ p. refuse_closed p >>= λ _. k) t
          (throw_when->>-Lands (is_closed (period_of date t)) period_is_closed k t (λ g. l)))

  pub find_account_id-Lands :
      (code : Code) (k : ℕ → Action LedgerTables LedgerError A) (t : LedgerTables)
      → ((account : ℕ) → Lands t (k account) P)
      → Lands t (find_account_id code >>= k) P
  unfolding find_account_id account_found
  find_account_id-Lands code k t l =
      >>=-assoc-Lands (select (active_accounts code)) account_found k t (
        select->>=-Lands (active_accounts code) (λ found. account_found found >>= k) t
          (go (filter_by (is_active_code code) t.chart_of_accounts)))
    where
      go : (accounts : List Account) → Lands t (account_found accounts >>= k) P
      go [] = throw->>=-Lands account_not_found k t
      go (account ∷ rest) = pure->>=-Lands account.id k t (l account.id)

module _ ⦃dec : DecimalLib⦄ {A : Type 0} {P : LedgerTables → Type 0} where
  pub insert_lines-Lands :
      (entry : ℕ) (lines : List JournalLineInput) (k : Action LedgerTables LedgerError A)
      (t : LedgerTables)
      → ((rows : List JournalLine) → Appended entry lines rows → Lands (with_lines rows t) k P)
      → Lands t (insert_lines entry lines >> k) P
  unfolding insert_lines append_line ◌>>◌
  insert_lines-Lands entry [] k t l = pure->>-Lands k t (
      subst (λ x. Lands (record t { journal_lines = x }) k P) (append-nil t.journal_lines)
        (l [] tt))
  insert_lines-Lands entry (line ∷ lines) k t l =
      >>=-assoc-Lands (find_account_id line.account_code) (write entry line lines) (λ _. k) t
        (find_account_id-Lands line.account_code (λ account. write entry line lines account >> k) t
          (λ account.
            let row = journal_line entry account line in
            >>=-assoc-Lands (update (append_line row)) (λ _. insert_lines entry lines) (λ _. k) t
              (update->>-Lands (append_line row) (insert_lines entry lines >> k) t (
                insert_lines-Lands entry lines k (append_line row t) (λ rows a.
                  subst (λ x. Lands (record t { journal_lines = x }) k P)
                    (sym (append_assoc t.journal_lines (row ∷ []) rows))
                    (l (row ∷ rows) ((account, refl), a)))))))
    where
      write :
          ℕ
          → JournalLineInput
          → List JournalLineInput
          → ℕ
          → Action LedgerTables LedgerError (Unit {0})
      write e x xs account = update (append_line (journal_line e account x)) >> insert_lines e xs

module _ {A : Type 0} {P : LedgerTables → Type 0} where
  pub find_given-Lands :
      (source_module source_id : Option Code)
      (k : Option PostedJournalEntry → Action LedgerTables LedgerError A) (t : LedgerTables)
      → is_given source_module && is_given source_id ≡ true
      → Lands t (k (entry_of source_module source_id t)) P
      → Lands t (find_existing_entry source_module source_id >>= k) P
  unfolding find_existing_entry
  find_given-Lands source_module source_id k t given l =
      rw given (select->>=-Lands (entry_of source_module source_id) k t l)

  -- Nothing follows the guard of a closed month.
  pub closed_month-Lands :
      (date : YearMonth) (k : Action LedgerTables LedgerError A) (t : LedgerTables)
      → is_closed (period_of date t) ≡ true
      → Lands t (assert_month_open (ok date) >> k) P
  unfolding assert_month_open ◌>>◌
  closed_month-Lands date k t closed =
      >>=-assoc-Lands (select (period_of date)) refuse_closed (λ _. k) t
        (select->>=-Lands (period_of date) (λ p. refuse_closed p >>= λ _. k) t
          (throw_when->>-Lands (is_closed (period_of date t)) period_is_closed k t
            (λ g. absurd (true≢false (sym closed ∙ g)))))
