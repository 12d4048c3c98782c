-- ===== src/Accounting/Processor/Balance.antt =====
-- The processor of src/accounting/accounting-outbox.processor.ts, the posting services it calls and the
-- ledger they post to, together: the double entry holds.
use gestion_alquileres_backe.Accounting.Books.Rules.{ledger_call-Keeps, ledger-KeptByMarks}
use gestion_alquileres_backe.Accounting.Processor.Handled.{handle_event-Keeps}
use Prim.Native.Nat.{zero}
use gestion_alquileres_backe.Accounting.Ledger.Posting.{post_entry-Keeps}
use gestion_alquileres_backe.Accounting.Ledger.Balance.{IsBalanced}
use gestion_alquileres_backe.Transaction.{Failure, Session}
use gestion_alquileres_backe.Transaction.Commit.{query-Keeps, attempt-Keeps}
use gestion_alquileres_backe.Prelude.{ℕ, List, ◌∷◌, [], suc, length, ◌+◌, zero}
use gestion_alquileres_backe.Accounting.Processor.{
  OutboxRow, handle_event, ProcessorError, process_event, process_events,
  process_pending_for_schema, process_minutes, mark_posted, claim, mark_failed, ProcessorTables,
  change_outbox, posted_row, failed_row, process_claimed,
}
use gestion_alquileres_backe.Transaction.Rules.{
  Keeps, pure-Keeps, >>=-Keeps, >>-Keeps, update-Keeps,
}
use gestion_alquileres_backe.Money.Currency.{Code}
use gestion_alquileres_backe.Money.Decimal.{DecimalLib}

module _ ⦃dec : DecimalLib⦄ (today : Code) where
  balance-Keeps :
      (uuid : Code) (event : OutboxRow)
      → Keeps (λ t. IsBalanced t.books.ledger) (handle_event today uuid event)
  balance-Keeps uuid event =
      handle_event-Keeps (λ input uuid. ledger_call-Keeps IsBalanced (post_entry-Keeps input uuid))
        (ledger-KeptByMarks IsBalanced) today uuid event

module _ ⦃dec : DecimalLib⦄ (today : Code) (uuid : OutboxRow → Code)
    (message : Failure ProcessorError → Code) where
  process_event-Keeps :
      (now : ℕ) (event : OutboxRow)
      → Keeps
          (λ t. IsBalanced t.books.ledger)
          (process_event (λ event. handle_event today (uuid event) event) message now event)
  unfolding process_event mark_posted mark_failed change_outbox
  process_event-Keeps now event =
      attempt-Keeps
        (>>=-Keeps (balance-Keeps today (uuid event) event)
          (λ result. update-Keeps (change_outbox event.id (posted_row result.id)) (λ t h. h)))
        (λ error.
          update-Keeps (change_outbox event.id (failed_row now event (message error))) (λ t h. h))

  process_events-Keeps :
      (now : ℕ) (events : List OutboxRow)
      → Keeps
          (λ t. IsBalanced t.books.ledger)
          (process_events (λ event. handle_event today (uuid event) event) message now events)
  unfolding process_events
  process_events-Keeps now [] = pure-Keeps tt
  process_events-Keeps now (event ∷ events) =
      >>-Keeps (process_event-Keeps now event) (process_events-Keeps now events)

  process_pending-Keeps :
      (now limit : ℕ)
      → Keeps
          (λ t. IsBalanced t.books.ledger)
          (process_pending_for_schema
            (λ event. handle_event today (uuid event) event)
            message
            now
            limit)
  unfolding process_pending_for_schema process_claimed claim
  process_pending-Keeps now limit =
      >>=-Keeps (query-Keeps (claim now limit) (λ t h. h))
        (λ events. >>-Keeps (process_events-Keeps now events) (pure-Keeps (length events)))

  -- Whatever events wait, and whichever queries and postings fail, the minutes of the processor leave a
  -- ledger in which every entry balances to the cent as such a ledger: through the claim, the handler
  -- of each type of event, the posting services and the ledger's own transactions.
  pub process_minutes_keep_balance :
      (now minutes : ℕ) (s : Session ProcessorTables)
      → IsBalanced s.store.books.ledger
      → IsBalanced
          (process_minutes
            (λ event. handle_event today (uuid event) event)
            message
            now
            minutes
            s).store.books.ledger
  unfolding process_minutes
  process_minutes_keep_balance now zero s b = b
  process_minutes_keep_balance now (suc minutes) s b =
      process_minutes_keep_balance (now + 1) minutes _ ((process_pending-Keeps now 25).keep s b)
