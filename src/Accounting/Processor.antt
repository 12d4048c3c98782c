-- ===== src/Accounting/Processor.antt =====
-- src/accounting/accounting-outbox.processor.ts: the events of a tenant that wait are claimed, posted
-- and marked, once a minute. Rows stand in the order of `created_at`; a moment is a number of minutes,
-- and a run has one. `JSON.parse` and the texts of exceptions are arguments: a payload is what was
-- parsed of it, and `message` is an exception's text.
pub mod Handled
pub mod Balance
pub mod Rows
pub mod Settled
pub mod Liveness
pub mod Handling
pub mod Payments
use Prim.Native.Nat.{zero}
use gestion_alquileres_backe.Payments.Outbox.{OutboxStatus, pending, processing, posted, failed}
use gestion_alquileres_backe.Accounting.Books.Postings.{
  post_approved_payment, post_expense, post_expense_payment, post_expense_vendor_payment,
  post_payment_refund, post_generated_statement, post_statement_transfer,
}
use gestion_alquileres_backe.Accounting.Tables.{PostedJournalEntry}
use gestion_alquileres_backe.Transaction.{
  Action, update, throw, zoom, Failure, attempt, pure, query, Session, ◌>>=◌, ◌>>◌,
}
use gestion_alquileres_backe.Prelude.Int.{ℤ, leb_ℤ, pos, pos_part}
use gestion_alquileres_backe.Money.Decimal.{DecimalLib}
use gestion_alquileres_backe.Money.Currency.{Code, codes, code_eq}
use gestion_alquileres_backe.Payments.Outbox.{OutboxStatus, posted, pending}
use gestion_alquileres_backe.Accounting.Books.{BooksTables, PostingError}
use gestion_alquileres_backe.Prelude.{
  Option, ℕ, List, Bool, ◌+◌, min, if◌then◌else◌, map, true, ◌&&◌, [], max, some, ◌==◌, false, leb,
  suc, ◌*◌, none, ◌∷◌, zero, length,
}

-- the numbers of a payload, where they are integers
pub record Payload : Type 0 where
  pub payment_id : Option ℤ
  pub expense_id : Option ℤ
  pub expense_payment_id : Option ℤ
  pub refund_id : Option ℤ
  pub statement_id : Option ℤ

-- a row of accounting_outbox
pub record OutboxRow : Type 0 where
  pub id : ℕ
  pub event_type : Code
  pub payload : Option Payload
  pub status : OutboxStatus
  pub attempts : ℕ
  pub last_error : Option Code
  pub next_retry_at : Option ℕ
  pub journal_entry_id : Option ℕ

pub record ProcessorTables : Type 0 where
  pub books : BooksTables
  pub accounting_outbox : List OutboxRow

pub data ProcessorError : Type 0 where
  in_posting : PostingError → ProcessorError
  bad_payload no_payment_id no_expense_id no_expense_payment_id no_refund_id : ProcessorError
  no_statement_id unsupported_event : ProcessorError

-- `status IN ('pending', 'failed')`
abbrev pub is_queued : OutboxStatus → Bool
is_queued pending = true
is_queued failed = true
is_queued _ = false

-- `next_retry_at IS NULL OR next_retry_at <= NOW()`
abbrev pub is_reached : ℕ → Option ℕ → Bool
is_reached now none = true
is_reached now (some moment) = leb moment now

abbrev pub is_due : ℕ → OutboxRow → Bool
is_due now row = is_queued row.status && is_reached now row.next_retry_at

abbrev pub claimed : OutboxRow → OutboxRow
claimed row = record row { status = processing; attempts = row.attempts + 1 }

-- the statement that claims: the claimed rows, and the table
unfoldable pub claim_due : ℕ → ℕ → List OutboxRow → List OutboxRow × List OutboxRow
claim_due now zero rows = ([], rows)
claim_due now (suc limit) [] = ([], [])
claim_due now (suc limit) (row ∷ rows) =
    let taken = claim_due now limit rows in
    let passed = claim_due now (suc limit) rows in
    if is_due now row
    then (claimed row ∷ taken.0, claimed row ∷ taken.1)
    else (passed.0, row ∷ passed.1)

unfoldable pub claim : ℕ → ℕ → ProcessorTables → List OutboxRow × ProcessorTables
claim now limit t =
    let rows = claim_due now limit t.accounting_outbox in
    (rows.0, record t { accounting_outbox = rows.1 })

-- `Math.min(60, Math.max(1, attempts * 2))`
unfoldable pub retry_minutes : ℕ → ℕ
retry_minutes attempts = min 60 (max 1 (attempts * 2))

abbrev pub posted_row : ℕ → OutboxRow → OutboxRow
posted_row entry row = record row {
  status = posted;
  journal_entry_id = some entry;
  last_error = none;
  next_retry_at = none;
}

abbrev pub failed_row : ℕ → OutboxRow → Code → OutboxRow → OutboxRow
failed_row now event message row = record row {
  status = failed;
  last_error = some message;
  next_retry_at = some (now + retry_minutes event.attempts);
}

-- `UPDATE … WHERE id = $2`
abbrev pub change_row : ℕ → (OutboxRow → OutboxRow) → OutboxRow → OutboxRow
change_row id change row = if row.id == id then change row else row

unfoldable pub change_outbox : ℕ → (OutboxRow → OutboxRow) → ProcessorTables → ProcessorTables
change_outbox id change t = record t {
  accounting_outbox = map (change_row id change) t.accounting_outbox;
}

-- `markPosted`
unfoldable pub mark_posted : ℕ → ℕ → Action ProcessorTables ProcessorError (Unit {0})
mark_posted id entry = update (change_outbox id (posted_row entry))

-- `markFailed`
unfoldable pub mark_failed : ℕ → OutboxRow → Code → Action ProcessorTables ProcessorError (Unit {0})
mark_failed now event message = update (change_outbox event.id (failed_row now event message))

abbrev pub books_of : ProcessorTables → BooksTables
books_of t = t.books

abbrev pub with_books : BooksTables → ProcessorTables → ProcessorTables
with_books b t = record t { books = b }

-- `!Number.isInteger(id) || id <= 0`
unfoldable pub valid_id : Option ℤ → Option ℕ
valid_id none = none
valid_id (some id) = if leb_ℤ id (pos 0) then none else some (pos_part id)

-- a call of a posting service, on the id that the payload names
unfoldable pub for_id :
    Option ℕ
    → ProcessorError
    → (ℕ → Action BooksTables PostingError PostedJournalEntry)
    → Action ProcessorTables ProcessorError PostedJournalEntry
for_id none missing post = throw missing
for_id (some id) missing post = zoom books_of with_books in_posting (post id)

-- a branch of `handleEvent`: the type of its events, the number it reads, its exception without one, and
-- the service it calls
pub record Handler : Type 0 where
  pub name : Code
  pub field : Payload → Option ℤ
  pub missing : ProcessorError
  pub post : ℕ → Action BooksTables PostingError PostedJournalEntry

-- a branch, behind the payload
unfoldable pub on_payload :
    Option Payload → Handler → Action ProcessorTables ProcessorError PostedJournalEntry
on_payload none handler = throw bad_payload
on_payload (some payload) handler =
    for_id (valid_id (handler.field payload)) handler.missing handler.post

-- the branches, in their order
unfoldable pub dispatch :
    OutboxRow → List Handler → Action ProcessorTables ProcessorError PostedJournalEntry
dispatch event [] = throw unsupported_event
dispatch event (handler ∷ rest) =
    if code_eq event.event_type handler.name
    then on_payload event.payload handler
    else dispatch event rest

module _ ⦃dec : DecimalLib⦄ (today uuid : Code) where
  unfoldable pub handlers : List Handler
  handlers =
      record {
        name = codes "payment.approved";
        field = λ p. p.payment_id;
        missing = no_payment_id;
        post = λ id. post_approved_payment id uuid;
      }
      ∷ record {
        name = codes "expense.created";
        field = λ p. p.expense_id;
        missing = no_expense_id;
        post = λ id. post_expense id uuid;
      }
      ∷ record {
        name = codes "expense.paid";
        field = λ p. p.expense_id;
        missing = no_expense_id;
        post = λ id. post_expense_payment id uuid;
      }
      ∷ record {
        name = codes "expense.payment.created";
        field = λ p. p.expense_payment_id;
        missing = no_expense_payment_id;
        post = λ id. post_expense_vendor_payment id uuid;
      }
      ∷ record {
        name = codes "payment.refund.created";
        field = λ p. p.refund_id;
        missing = no_refund_id;
        post = λ id. post_payment_refund id uuid;
      }
      ∷ record {
        name = codes "owner_statement.generated";
        field = λ p. p.statement_id;
        missing = no_statement_id;
        post = λ id. post_generated_statement id uuid;
      }
      ∷ record {
        name = codes "owner_statement.transferred";
        field = λ p. p.statement_id;
        missing = no_statement_id;
        post = λ id. post_statement_transfer id today uuid;
      }
      ∷ []

  -- `handleEvent`
  unfoldable pub handle_event : OutboxRow → Action ProcessorTables ProcessorError PostedJournalEntry
  handle_event event = dispatch event handlers

-- `processEvent` and what calls it, over `handleEvent`
module _ (handle : OutboxRow → Action ProcessorTables ProcessorError PostedJournalEntry)
    (message : Failure ProcessorError → Code) where
  -- `processEvent`
  unfoldable pub process_event : ℕ → OutboxRow → Action ProcessorTables ProcessorError (Unit {0})
  process_event now event =
      attempt (handle event >>= λ result. mark_posted event.id result.id)
        (λ error. mark_failed now event (message error))

  unfoldable pub process_events :
      ℕ → List OutboxRow → Action ProcessorTables ProcessorError (Unit {0})
  process_events now [] = pure tt
  process_events now (event ∷ events) = process_event now event >> process_events now events

  -- `processPendingForSchema`, behind the claim
  unfoldable pub process_claimed : ℕ → List OutboxRow → Action ProcessorTables ProcessorError ℕ
  process_claimed now events = process_events now events >> pure (length events)

  -- `processPendingForSchema`, at the moment `now`
  unfoldable pub process_pending_for_schema : ℕ → ℕ → Action ProcessorTables ProcessorError ℕ
  process_pending_for_schema now limit = query (claim now limit) >>= process_claimed now

  -- `processPendingEvents`, for the tenant: the minutes from `now` on; an exception is logged
  unfoldable pub process_minutes : ℕ → ℕ → Session ProcessorTables → Session ProcessorTables
  process_minutes now zero s = s
  process_minutes now (suc minutes) s =
      process_minutes (now + 1) minutes (process_pending_for_schema now 25 s).1
