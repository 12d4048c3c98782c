-- ===== src/Tests/Events.antt =====
-- Runs of src/accounting/accounting-outbox.processor.ts: the event of a rent that failed before, behind
-- one of an unknown type.
use gestion_alquileres_backe.Accounting.Periods.{is_closed, find_period}
use gestion_alquileres_backe.Accounting.Books.Payable.{Payable}
use gestion_alquileres_backe.Accounting.Dates.{checked_date, match_date, validate_year_month}
use gestion_alquileres_backe.Payments.Status.{approved}
use gestion_alquileres_backe.Accounting.Processor.Payments.{
  IsPaymentEvent, payment_eventually_posted,
}
use gestion_alquileres_backe.Accounting.Books.Entries.{payment_entry, income_account}
use gestion_alquileres_backe.Accounting.Books.{BookedPayment, rent, not_posted}
use gestion_alquileres_backe.Payments.Outbox.{failed}
use gestion_alquileres_backe.Accounting.Processor.Balance.{process_minutes_keep_balance}
use gestion_alquileres_backe.Money.Decimal.{exact_decimals}
use gestion_alquileres_backe.Accounting.Processor.Liveness.{failed_row_due_again}
use gestion_alquileres_backe.Money.Currency.{codes, Code, code_eq}
use gestion_alquileres_backe.Prelude.Int.{pos}
use gestion_alquileres_backe.Accounting.Processor.Rows.{PostedRow, WaitingRow}
use gestion_alquileres_backe.Tests.Ledger.{empty_ledger, empty_ledger-IsBalanced}
use gestion_alquileres_backe.Accounting.Ledger.Balance.{IsBalanced}
use gestion_alquileres_backe.Transaction.{Session, Failure}
use gestion_alquileres_backe.Prelude.{
  ℕ, All, some, Option, false, [], none, ◌∷◌, ◌==◌, arith, ◌≡◌, inr, true, refl, ◌≢◌,
}
use gestion_alquileres_backe.Accounting.Processor.{
  Payload, ProcessorTables, OutboxRow, is_due, ProcessorError, process_minutes, failed_row,
  handle_event, valid_id,
}

abbrev rent_payload : Payload
rent_payload = record {
  payment_id = some (pos 21);
  expense_id = none;
  expense_payment_id = none;
  refund_id = none;
  statement_id = none;
}

abbrev waiting : ℕ → Option ℕ → OutboxRow
waiting id retry = record {
  id = id;
  event_type = codes "payment.approved";
  payload = some rent_payload;
  status = failed;
  attempts = 3;
  last_error = none;
  next_retry_at = retry;
  journal_entry_id = none;
}

abbrev paid_rent : BookedPayment
paid_rent = record {
  id = 21;
  contract_id = some 8;
  reservation_id = none;
  property_id = 3;
  amount = pos 125000;
  payment_type = rent;
  payment_date = codes "2026-01-15";
  status = approved;
  accounting_status = not_posted;
  journal_entry_id = none;
}

-- an event of a type that no service handles
abbrev unknown : OutboxRow
unknown = record (waiting 2 none) { event_type = codes "payment.lost" }

abbrev events : ProcessorTables
events = record {
  books = record {
    ledger = empty_ledger;
    payments = paid_rent ∷ [];
    payment_refunds = [];
    expenses = [];
    expense_payments = [];
    owner_statements = [];
  };
  accounting_outbox = unknown ∷ waiting 1 (some 103) ∷ [];
}

abbrev start_events : Session ProcessorTables
start_events = record { store = events; queries = 0; fails = λ n. false }

abbrev message : Failure ProcessorError → Code
message e = codes "no"

process_minutes_keep_balance_example :
    IsBalanced
      (process_minutes
        (λ event. handle_event ⦃dec = exact_decimals⦄ (codes "2026-02-01") (codes "d") event)
        message
        100
        3
        start_events).store.books.ledger
process_minutes_keep_balance_example =
    process_minutes_keep_balance ⦃dec = exact_decimals⦄ (codes "2026-02-01") (λ event. codes "d")
      message 100 3 start_events empty_ledger-IsBalanced

rent-Payable : Payable 21 events.books
unfolding payment_entry income_account checked_date match_date validate_year_month is_closed
    find_period code_eq
rent-Payable = record {
  payment = paid_rent;
  others = [];
  found = refl;
  positive = refl;
  month = record { year = 2026; month = 1 };
  dated = refl;
  opened = refl;
  cash_account = (record { id = 5; code = codes "1100"; is_active = true }, [], refl);
  income = (record { id = 6; code = codes "4000"; is_active = true }, [], refl);
}

rent-IsPaymentEvent : IsPaymentEvent 21 (waiting 1 (some 103))
unfolding valid_id
rent-IsPaymentEvent = (refl, (rent_payload, refl, refl))

rent-waits : WaitingRow 1 (IsPaymentEvent 21) 103 (waiting 1 (some 103))
rent-waits own = inr (refl, refl, rent-IsPaymentEvent)

different_numbers : (a b : ℕ) → a == b ≡ false → a ≢ b
different_numbers a b h e = ground arith

unknown-waits : WaitingRow 1 (IsPaymentEvent 21) 103 unknown
unknown-waits own = absurd (different_numbers 2 1 refl own)

payment_eventually_posted_example :
    All
      (PostedRow 1)
      (process_minutes
        (λ event. handle_event ⦃dec = exact_decimals⦄ (codes "2026-02-01") (codes "d") event)
        message
        100
        4
        start_events).store.accounting_outbox
payment_eventually_posted_example =
    payment_eventually_posted ⦃dec = exact_decimals⦄ (codes "2026-02-01") (λ event. codes "d")
      message 1 21 100 3 103 start_events (λ n. refl) rent-Payable (omega arith)
      (unknown-waits, (rent-waits, tt)) (omega arith)

failed_row_due_again_example :
    (is_due 100 (failed_row 100 (waiting 1 none) (codes "no") (waiting 1 none)) ≡ false)
    × (is_due 160 (failed_row 100 (waiting 1 none) (codes "no") (waiting 1 none)) ≡ true)
failed_row_due_again_example =
    failed_row_due_again 100 (waiting 1 none) (waiting 1 none) (codes "no")
