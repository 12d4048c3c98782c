-- ===== src/Tests/Ledger.antt =====
-- Runs of src/accounting/accounting-ledger.service.ts: a rent of 1,250.505 is posted, to the cent, and
-- reversed; January is closed.
use gestion_alquileres_backe.Accounting.Validation.{to_entry_cents}
use gestion_alquileres_backe.Accounting.Closing.{close_period_refuses}
use gestion_alquileres_backe.Accounting.Periods.{
  close_period, assert_month_open, find_period, is_closed, upsert_period, closed_row, upserted,
  state_of,
}
use gestion_alquileres_backe.Accounting.Ledger.Once.{post_entry_once}
use gestion_alquileres_backe.Accounting.Dates.{checked_date, match_date, validate_year_month}
use gestion_alquileres_backe.Accounting.Reversal.Cancellation.{
  reverse_entry_once, IsCancelled, reverse_entry_cancels,
}
use gestion_alquileres_backe.Accounting.Ledger.Posting.{post_entry-Keeps}
use gestion_alquileres_backe.Accounting.Reversal.{
  reverse_entry, reverse_found, write_reversal, insert_reversals, reversal_line, reversal_row,
  reversal_memo, to_text, mark_reversed,
}
use gestion_alquileres_backe.Accounting.Validation.{
  validate_entry, validate_lines, is_blank_code, or_zero,
}
use gestion_alquileres_backe.Accounting.Calls.{ledger_balances, posts, run_calls, reverses}
use gestion_alquileres_backe.Money.Decimal.{exact_decimals, round_div}
use gestion_alquileres_backe.Prelude.Int.{pos, ◌*ℤ◌, ◌-ℤ◌, ◌+ℤ◌, neg}
use gestion_alquileres_backe.Prelude.{some, [], false, refl, none, true, ◌≡◌, map, ◌∷◌, ok}
use gestion_alquileres_backe.Accounting.Ledger.{
  post_entry, is_given, find_existing_entry, account_found, append_line, create_entry_number,
  find_account_id, first_entry, has_source, insert_entry, insert_lines, journal_line, new_entry,
  option_eq, post_unless,
}
use gestion_alquileres_backe.Accounting.Ledger.Balance.{total, IsBalanced, debit_of}
use gestion_alquileres_backe.Transaction.{
  Session, ◌>>◌, lift, transaction, select, pure, query, throw, throw_when, update, ◌>>=◌,
}
use gestion_alquileres_backe.Money.Numeral.{Decimal, to_places, times}
use gestion_alquileres_backe.Money.Currency.{Code, codes, is_blank, code_eq}
use gestion_alquileres_backe.Accounting.Tables.{
  References, PostJournalEntryInput, ReverseJournalEntryInput, LedgerTables, JournalLineInput,
  AccountingPeriod, closed_period,
}

abbrev nothing : References
nothing = record {
  property_id = some 3;
  unit_id = none;
  owner_id = none;
  tenant_user_id = none;
  vendor_id = none;
  contract_id = some 8;
  payment_id = some 21;
  expense_id = none;
}

abbrev rent_debit : Code → Decimal → JournalLineInput
rent_debit code amount = record {
  account_code = code;
  debit = some amount;
  credit = none;
  references = nothing;
  memo = none;
}

abbrev rent_credit : Code → Decimal → JournalLineInput
rent_credit code amount = record {
  account_code = code;
  debit = none;
  credit = some amount;
  references = nothing;
  memo = some (codes "Renta");
}

abbrev rent : Decimal
rent = record { units = pos 1250505; places = 3 }

abbrev rent_entry : PostJournalEntryInput
rent_entry = record {
  entry_date = codes "2026-01-15";
  description = codes "Posteo de pago aprobado #21";
  source_module = some (codes "payments");
  source_id = some (codes "21");
  basis = none;
  metadata = none;
  lines = rent_debit (codes "1100") rent ∷ rent_credit (codes "4000") rent ∷ [];
}

abbrev reversal : ReverseJournalEntryInput
reversal = record { entry_id = pos 1; reversal_date = codes "2026-01-20"; description = none }

abbrev pub empty_ledger : LedgerTables
empty_ledger = record {
  journal_entries = [];
  journal_lines = [];
  chart_of_accounts =
      record { id = 5; code = codes "1100"; is_active = true }
      ∷ record { id = 6; code = codes "4000"; is_active = true }
      ∷ [];
  accounting_periods = [];
  next_entry_id = 1;
}

abbrev start : Session LedgerTables
start = record { store = empty_ledger; queries = 0; fails = λ n. false }

abbrev posted_ledger : Session LedgerTables
posted_ledger = (post_entry ⦃dec = exact_decimals⦄ rent_entry (codes "a") start).1

pub empty_ledger-IsBalanced : IsBalanced empty_ledger
unfolding total
empty_ledger-IsBalanced = record { balanced = λ entry. refl; numbered = tt }

posted_ledger-IsBalanced : IsBalanced posted_ledger.store
posted_ledger-IsBalanced =
    (post_entry-Keeps ⦃dec = exact_decimals⦄ rent_entry (codes "a")).keep start
      empty_ledger-IsBalanced

abbrev january : AccountingPeriod
january = record {
  period_year = 2026;
  period_month = 1;
  status = closed_period;
  closed_at = some 77;
  closed_by = none;
  reopened_at = none;
  reopened_by = none;
  reopen_reason = none;
}

-- the posting returns, to the cent, and so does its reversal and a closing
runs :
    ((post_entry ⦃dec = exact_decimals⦄ rent_entry (codes "a") start).0
      ≡ ok (record { id = 1; entry_number = codes "JE-a" }))
    × (map debit_of posted_ledger.store.journal_lines ≡ pos 125051 ∷ pos 0 ∷ [])
    × ((reverse_entry ⦃dec = exact_decimals⦄ reversal (codes "b") posted_ledger).0
        ≡ ok (record { id = 2; entry_number = codes "JE-b" }))
    × ((close_period 77 2026 1 none start).0 ≡ ok january)
unfolding upserted state_of post_entry validate_entry ◌>>◌ lift validate_lines is_blank_code
    is_blank to_entry_cents or_zero to_places round_div ◌*ℤ◌ times ◌-ℤ◌ ◌+ℤ◌ transaction
    find_existing_entry is_given select checked_date match_date validate_year_month account_found
    append_line create_entry_number find_account_id first_entry has_source insert_entry insert_lines
    journal_line new_entry option_eq post_unless assert_month_open find_period is_closed code_eq neg
    pure query throw throw_when update ◌>>=◌ reverse_entry reverse_found write_reversal
    insert_reversals reversal_line reversal_row reversal_memo to_text mark_reversed close_period
    upsert_period closed_row
runs = (refl, refl, refl, refl)

ledger_balances_example :
    IsBalanced
      (run_calls ⦃dec = exact_decimals⦄
        (posts rent_entry (codes "a") ∷ reverses reversal (codes "b") ∷ [])
        start).store
ledger_balances_example =
    ledger_balances ⦃dec = exact_decimals⦄
      (posts rent_entry (codes "a") ∷ reverses reversal (codes "b") ∷ []) start
      empty_ledger-IsBalanced

post_entry_once_example :
    (post_entry ⦃dec = exact_decimals⦄ rent_entry (codes "c") posted_ledger).1.store
    ≡ posted_ledger.store
unfolding is_given
post_entry_once_example =
    post_entry_once ⦃dec = exact_decimals⦄ rent_entry rent_entry (codes "a") (codes "c")
      (record { id = 1; entry_number = codes "JE-a" }) start refl refl refl runs.0

reverse_entry_cancels_example :
    IsCancelled 1 posted_ledger.store.next_entry_id
      (reverse_entry ⦃dec = exact_decimals⦄ reversal (codes "b") posted_ledger).1.store
reverse_entry_cancels_example =
    reverse_entry_cancels ⦃dec = exact_decimals⦄ reversal (codes "b")
      (record { id = 2; entry_number = codes "JE-b" }) posted_ledger posted_ledger-IsBalanced runs.2

reverse_entry_once_example : ¬ (
    (reverse_entry ⦃dec = exact_decimals⦄ reversal
      (codes "c")
      (reverse_entry ⦃dec = exact_decimals⦄ reversal (codes "b") posted_ledger).1).0
    ≡ ok (record { id = 3; entry_number = codes "JE-c" }))
reverse_entry_once_example =
    reverse_entry_once ⦃dec = exact_decimals⦄ reversal reversal (codes "b") (codes "c")
      (record { id = 2; entry_number = codes "JE-b" })
      (record { id = 3; entry_number = codes "JE-c" }) posted_ledger posted_ledger-IsBalanced refl
      runs.2

close_period_refuses_example :
    let closed = (close_period 77 2026 1 none start).1 in
    ((post_entry ⦃dec = exact_decimals⦄ rent_entry (codes "a") closed).1.store ≡ closed.store)
    × ((reverse_entry ⦃dec = exact_decimals⦄ reversal (codes "a") closed).1.store ≡ closed.store)
unfolding checked_date match_date validate_year_month
close_period_refuses_example =
    close_period_refuses ⦃dec = exact_decimals⦄ 77 2026 1 none january rent_entry reversal
      (codes "a") start runs.3 refl refl
