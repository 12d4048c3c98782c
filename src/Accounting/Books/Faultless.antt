-- ===== src/Accounting/Books/Faultless.antt =====
-- The posting services of src/accounting, and the ledger that they call, leave the environment alone.
use gestion_alquileres_backe.Accounting.Validation.{validate_entry}
use gestion_alquileres_backe.Accounting.Books.{BooksTables, bad_amount, in_entry}
use gestion_alquileres_backe.Transaction.Faults.{
  Calm, >>-Calm, throw-Calm, pure-Calm, lift-Calm, >>=-Calm, throw_when-Calm, zoom-Calm,
  select-Calm, query-Calm, transaction-Calm, update-Calm,
}
use gestion_alquileres_backe.Accounting.Dates.{YearMonth, parse_accounting_date}
use gestion_alquileres_backe.Money.Currency.{Code}
use gestion_alquileres_backe.Prelude.Int.{ℤ}
use gestion_alquileres_backe.Accounting.Tables.{
  PostJournalEntryInput, LedgerError, PostedJournalEntry, JournalLineInput, Account,
  account_not_found, period_is_closed,
}
use gestion_alquileres_backe.Prelude.{
  Result, Option, ℕ, List, err, some, Bool-cases, ◌∷◌, ok, ◌&&◌, inl, inr, none, [],
}
use gestion_alquileres_backe.Accounting.Books.Postings.{
  post_and_mark, post_positive, not_positive, ledger_of, with_ledger,
}
use gestion_alquileres_backe.Accounting.Periods.{assert_month_open, period_of, is_closed}
use gestion_alquileres_backe.Accounting.Ledger.{
  insert_lines, post_unless, find_existing_entry, post_entry, find_account_id, account_found,
  is_given, insert_entry, entry_of, active_accounts, new_entry, create_entry_number, append_line,
  journal_line,
}
use gestion_alquileres_backe.Money.Decimal.{DecimalLib}

module _ ⦃dec : DecimalLib⦄ where
  insert_lines-Calm : (entry : ℕ) (lines : List JournalLineInput) → Calm (insert_lines entry lines)
  unfolding insert_lines find_account_id account_found
  insert_lines-Calm entry [] = pure-Calm tt
  insert_lines-Calm entry (line ∷ lines) =
      >>=-Calm (>>=-Calm (select-Calm (active_accounts line.account_code)) found) (λ account.
        >>-Calm (update-Calm (append_line (journal_line entry account line)))
          (insert_lines-Calm entry lines))
    where
      found : (accounts : List Account) → Calm (account_found accounts)
      found [] = throw-Calm account_not_found
      found (account ∷ rest) = pure-Calm account.id

  assert_month_open-Calm : (date : Result LedgerError YearMonth) → Calm (assert_month_open date)
  unfolding assert_month_open
  assert_month_open-Calm (err e) = throw-Calm e
  assert_month_open-Calm (ok date) =
      >>=-Calm (select-Calm (period_of date)) (λ p. throw_when-Calm (is_closed p) period_is_closed)

  post_unless-Calm :
      (found : Option PostedJournalEntry) (input : PostJournalEntryInput) (uuid : Code)
      → Calm (post_unless found input uuid)
  unfolding post_unless
  post_unless-Calm (some existing) input uuid = pure-Calm existing
  post_unless-Calm none input uuid =
      >>-Calm (assert_month_open-Calm (parse_accounting_date input.entry_date)) (
        >>=-Calm (query-Calm (insert_entry (new_entry input (create_entry_number uuid))))
          (λ entry. >>-Calm (insert_lines-Calm entry input.lines) (pure-Calm _)))

  find_existing_entry-Calm :
      (source_module source_id : Option Code) → Calm (find_existing_entry source_module source_id)
  unfolding find_existing_entry
  find_existing_entry-Calm source_module source_id =
      elim (Bool-cases (is_given source_module && is_given source_id)) [
        | inl given ↦ rw given (select-Calm (entry_of source_module source_id))
        | inr missing ↦ rw missing (pure-Calm none)
      ]

  pub post_entry-Calm : (input : PostJournalEntryInput) (uuid : Code) → Calm (post_entry input uuid)
  unfolding post_entry
  post_entry-Calm input uuid = >>-Calm (lift-Calm (validate_entry input)) (
      transaction-Calm (
        >>=-Calm (find_existing_entry-Calm input.source_module input.source_id)
          (λ found. post_unless-Calm found input uuid)))

  pub post_and_mark-Calm :
      (input : PostJournalEntryInput) (uuid : Code) (mark : ℕ → BooksTables → BooksTables)
      → Calm (post_and_mark input uuid mark)
  unfolding post_and_mark
  post_and_mark-Calm input uuid mark =
      >>=-Calm (zoom-Calm ledger_of with_ledger in_entry (post_entry-Calm input uuid))
        (λ result. >>-Calm (update-Calm (mark result.id)) (pure-Calm result))

  pub post_positive-Calm :
      (amount : ℤ) (input : PostJournalEntryInput) (uuid : Code)
      (mark : ℕ → BooksTables → BooksTables)
      → Calm (post_positive amount input uuid mark)
  unfolding post_positive
  post_positive-Calm amount input uuid mark =
      >>-Calm (throw_when-Calm (not_positive amount) bad_amount)
        (post_and_mark-Calm input uuid mark)
