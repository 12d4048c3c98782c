-- ===== src/Accounting/Processor/Payments.antt =====
-- The events 'payment.approved' of src/accounting/accounting-outbox.processor.ts.
use gestion_alquileres_backe.Accounting.Processor.Liveness.{eventually_posted}
use gestion_alquileres_backe.Accounting.Books.Rules.{ledger_call-Keeps, ledger-KeptByMarks}
use gestion_alquileres_backe.Accounting.Books.Postings.{post_approved_payment}
use gestion_alquileres_backe.Accounting.Processor.Rows.{WaitingRow, PostedRow}
use gestion_alquileres_backe.Accounting.Ledger.{post_entry}
use gestion_alquileres_backe.Accounting.Books.Returns.{post_approved_payment-Returns, zoom-Yields}
use gestion_alquileres_backe.Accounting.Processor.Handled.{handle_event-Keeps}
use gestion_alquileres_backe.Accounting.Processor.Handling.{handle_event-Posts}
use gestion_alquileres_backe.Transaction.Rules.{NoFaults}
use gestion_alquileres_backe.Accounting.Processor.Settled.{Posts}
use gestion_alquileres_backe.Accounting.Tables.{PostedJournalEntry}
use gestion_alquileres_backe.Accounting.Books.Payable.{
  Payable, AsBefore, unmarked_payments, Payable-stays, payments_of_zoom, payments-KeptByMarks,
  HasSetup, post_entry-HasSetup,
}
use gestion_alquileres_backe.Accounting.Books.{BooksTables}
use gestion_alquileres_backe.Transaction.{Action, Failure, Session, zoom}
use gestion_alquileres_backe.Money.Currency.{Code, codes, code_eq}
use gestion_alquileres_backe.Accounting.Processor.{
  OutboxRow, handle_event, ProcessorTables, dispatch, ProcessorError, Payload, handlers, on_payload,
  valid_id, books_of, for_id, with_books, in_posting, process_minutes,
}
use gestion_alquileres_backe.Money.Decimal.{DecimalLib}
use gestion_alquileres_backe.Prelude.{ℕ, ◌≡◌, some, length, ◌≤◌, All, refl, ap, ◌+◌, ◌∙◌, suc}

-- an event 'payment.approved' with the number of a payment
abbrev pub IsPaymentEvent : ℕ → OutboxRow → Type 0
IsPaymentEvent id event =
    (event.event_type ≡ codes "payment.approved")
    × ((payload : Payload) × (event.payload ≡ some payload)
        × (valid_id payload.payment_id ≡ some id))

module _ ⦃dec : DecimalLib⦄ (today : Code) (uuid : OutboxRow → Code) where
  -- the service that the event calls
  abbrev posting : ℕ → OutboxRow → Action ProcessorTables ProcessorError PostedJournalEntry
  posting id event = zoom books_of with_books in_posting (post_approved_payment id (uuid event))

  dispatched :
      (id : ℕ) (event : OutboxRow)
      → IsPaymentEvent id event
      → handle_event today (uuid event) event ≡ posting id event
  unfolding handle_event dispatch handlers on_payload for_id code_eq
  dispatched id event (kind, (payload, e, v)) = rw (kind, e, v) refl

  handle_event-AsBefore :
      (before : BooksTables) (event : OutboxRow) (s : Session ProcessorTables)
      → AsBefore before s.store.books
      → AsBefore before (handle_event today (uuid event) event s).1.store.books
  handle_event-AsBefore before event s h =
      let ps = unmarked_payments before in
      let accounts = before.ledger.chart_of_accounts in
      let periods = before.ledger.accounting_periods in
      let payments =
        handle_event-Keeps {P = λ b. unmarked_payments b ≡ ps}
          (λ input id. payments_of_zoom ps (post_entry input id)) (payments-KeptByMarks ps) today
          (uuid event) event in
      let setup =
        handle_event-Keeps {P = λ b. HasSetup accounts periods b.ledger}
          (λ input id.
            ledger_call-Keeps (HasSetup accounts periods)
              (post_entry-HasSetup accounts periods input id))
          (ledger-KeptByMarks (HasSetup accounts periods)) today (uuid event) event in
      (payments.keep s h.0, setup.keep s h.1)

  payment-Posts :
      (target id : ℕ) (before : BooksTables)
      → Payable id before
      → Posts
          (λ event. handle_event today (uuid event) event)
          target
          (IsPaymentEvent id)
          (AsBefore before)
  payment-Posts target id before payable =
      handle_event-Posts today uuid target (IsPaymentEvent id) (AsBefore before) (λ row own. own)
        (handle_event-AsBefore before)
        (λ event s own kind n ready.
          let y = Payable-stays id before s.store.books payable ready in
          let (e, t, z) = post_approved_payment-Returns id (uuid event) s.store.books y in
          let w = zoom-Yields books_of with_books in_posting s.store z in
          (
            e,
            ap (λ (m : Action ProcessorTables ProcessorError PostedJournalEntry). (m s).0)
                  (dispatched id event kind)
                ∙ w.result s refl n,
          ))

  -- An event 'payment.approved' that waits, at the latest until the minute `deadline`, in an outbox of at
  -- most 25 rows, which is what a run takes, is posted once the processor has run every minute up to that
  -- one: every row of its number is posted then. The conditions are that no query fails and that the
  -- payment is payable at the start: approved, of a positive amount, dated in a month that is not
  -- closed, with the two accounts of its entry active. Which other events wait, and which of them fail,
  -- does not matter.
  pub payment_eventually_posted :
      (message : Failure ProcessorError → Code) (target id now minutes deadline : ℕ)
      (s : Session ProcessorTables)
      → NoFaults s
      → Payable id s.store.books
      → length s.store.accounting_outbox ≤ 25
      → All (WaitingRow target (IsPaymentEvent id) deadline) s.store.accounting_outbox
      → deadline ≤ now + minutes
      → All
          (PostedRow target)
          (process_minutes
            (λ event. handle_event today (uuid event) event)
            message
            now
            (suc minutes)
            s).store.accounting_outbox
  payment_eventually_posted message target id now minutes deadline s n payable room waits late =
      eventually_posted (λ event. handle_event today (uuid event) event) message target
        (IsPaymentEvent id) (AsBefore s.store.books) (payment-Posts target id s.store.books payable)
        now minutes deadline s n (refl, (refl, refl)) room waits late
