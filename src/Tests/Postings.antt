-- ===== src/Tests/Postings.antt =====
-- Runs of the posting services of src/accounting: a paid expense of 80.00 and a payment of it that has
-- the expense's number, a payment of a rent, a statement of an owner, and two events that wait.
use gestion_alquileres_backe.Money.Numeral.{times, to_places}
use gestion_alquileres_backe.Accounting.Reversal.{to_text}
use gestion_alquileres_backe.Accounting.Periods.{assert_month_open, find_period, is_closed}
use gestion_alquileres_backe.Accounting.Dates.{checked_date, match_date, validate_year_month}
use gestion_alquileres_backe.Accounting.Ledger.{
  post_entry, account_found, append_line, create_entry_number, find_account_id, find_existing_entry,
  first_entry, has_source, insert_entry, insert_lines, is_given, journal_line, new_entry, option_eq,
  post_unless,
}
use gestion_alquileres_backe.Transaction.{
  ◌>>=◌, ◌>>◌, select, throw_when, zoom, lift, pure, query, throw, transaction, update,
}
use gestion_alquileres_backe.Accounting.Books.Statement.{statement_accepted}
use gestion_alquileres_backe.Accounting.Books.Collision.{vendor_payment_not_posted}
use gestion_alquileres_backe.Payments.Status.{approved}
use gestion_alquileres_backe.Accounting.Books.Entries.{statement_entry, expense_payment_entry}
use gestion_alquileres_backe.Accounting.Books.Accepted.{
  entry_of_posting, of_payment, postings_accepted,
}
use gestion_alquileres_backe.Money.Currency.{codes, is_blank, code_eq}
use gestion_alquileres_backe.Money.Decimal.{exact_decimals, round_div}
use gestion_alquileres_backe.Prelude.{none, some, [], ◌∷◌, false, true, ◌≡◌, ok, refl, arith}
use gestion_alquileres_backe.Accounting.Books.Postings.{
  post_expense_payment, post_expense_vendor_payment, post_settled_expense, post_and_mark,
  mark_expense_posted,
}
use gestion_alquileres_backe.Prelude.Int.{◌-ℤ◌, pos, ◌+ℤ◌, neg, ◌*ℤ◌}
use gestion_alquileres_backe.Accounting.Validation.{
  validate_entry, validate_lines, is_blank_code, to_entry_cents, or_zero,
}
use gestion_alquileres_backe.Transaction.{Session}
use gestion_alquileres_backe.Accounting.Tables.{LedgerTables}
use gestion_alquileres_backe.Accounting.Books.{
  BookedExpense, BookedExpensePayment, BookedPayment, BookedStatement, BooksTables, rent,
  not_posted, paid_expense, in_ledger,
}

abbrev gas : BookedExpense
gas = record {
  id = 7;
  property_id = 3;
  unit_id = none;
  vendor_id = some 2;
  amount = pos 8000;
  category = codes "REPAIRS";
  payment_status = paid_expense;
  date = codes "2026-01-10";
  paid_date = some (codes "2026-01-12");
  description = none;
  accounting_status = in_ledger;
  journal_entry_id = none;
}

abbrev instalment : BookedExpensePayment
instalment = record {
  id = 7;
  expense_id = 7;
  amount = pos 2500;
  payment_date = codes "2026-02-01";
  payment_method = none;
  reference_number = none;
  notes = none;
  accounting_status = not_posted;
  journal_entry_id = none;
}

abbrev rent_payment : BookedPayment
rent_payment = record {
  id = 21;
  contract_id = some 8;
  reservation_id = none;
  property_id = 3;
  amount = pos 125000;
  payment_type = rent;
  payment_date = codes "2026-01-15";
  status = approved;
  accounting_status = not_posted;
  journal_entry_id = none;
}

abbrev statement : BookedStatement
statement = record {
  id = 4;
  rental_owner_id = 9;
  property_id = 3;
  unit_id = none;
  gross_rent = pos 125000;
  maintenance_deduction = pos 0;
  management_commission = pos 12500;
  net_amount = pos 112500;
  period_year = 2026;
  period_month = 1;
  accounting_status = not_posted;
  journal_entry_id = none;
  transfer_journal_entry_id = none;
}

abbrev expense_ledger : LedgerTables
expense_ledger = record {
  journal_entries = [];
  journal_lines = [];
  chart_of_accounts =
      record { id = 5; code = codes "1100"; is_active = true }
      ∷ record { id = 6; code = codes "2300"; is_active = true }
      ∷ [];
  accounting_periods = [];
  next_entry_id = 1;
}

abbrev books : BooksTables
books = record {
  ledger = expense_ledger;
  payments = rent_payment ∷ [];
  payment_refunds = [];
  expenses = gas ∷ [];
  expense_payments = instalment ∷ [];
  owner_statements = statement ∷ [];
}

abbrev start_books : Session BooksTables
start_books = record { store = books; queries = 0; fails = λ n. false }

postings_accepted_example :
    validate_entry ⦃dec = exact_decimals⦄ (entry_of_posting (of_payment rent_payment)) ≡ ok tt
postings_accepted_example =
    postings_accepted ⦃dec = exact_decimals⦄ (of_payment rent_payment) (omega arith)

statement_accepted_example :
    validate_entry ⦃dec = exact_decimals⦄ (statement_entry statement) ≡ ok tt
unfolding ◌-ℤ◌ ◌+ℤ◌
statement_accepted_example =
    statement_accepted ⦃dec = exact_decimals⦄ statement
      (omega arith, omega arith, omega arith, omega arith) refl

expense_paid :
    (post_expense_payment ⦃dec = exact_decimals⦄ 7 (codes "a") start_books).0
    ≡ ok (record { id = 1; entry_number = codes "JE-a" })
unfolding post_expense_payment ◌>>=◌ select post_settled_expense ◌>>◌ throw_when post_and_mark zoom
    post_entry lift validate_entry expense_payment_entry validate_lines is_blank_code is_blank
    to_entry_cents or_zero mark_expense_posted checked_date match_date validate_year_month
    account_found append_line create_entry_number find_account_id find_existing_entry first_entry
    has_source insert_entry insert_lines is_given journal_line new_entry option_eq post_unless
    assert_month_open find_period is_closed to_text code_eq round_div times to_places neg ◌*ℤ◌ ◌+ℤ◌
    ◌-ℤ◌ pure query throw transaction update
expense_paid = refl

vendor_payment_not_posted_example :
    let paid = (post_expense_payment ⦃dec = exact_decimals⦄ 7 (codes "a") start_books).1 in
    (post_expense_vendor_payment ⦃dec = exact_decimals⦄ 7 (codes "b") paid).1.store.ledger
    ≡ paid.store.ledger
vendor_payment_not_posted_example =
    vendor_payment_not_posted ⦃dec = exact_decimals⦄ 7 (codes "a") (codes "b")
      (record { id = 1; entry_number = codes "JE-a" }) start_books expense_paid
