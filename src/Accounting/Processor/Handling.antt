-- ===== src/Accounting/Processor/Handling.antt =====
-- `handleEvent` of src/accounting/accounting-outbox.processor.ts leaves accounting_outbox to the
-- processor, and the environment alone.
use gestion_alquileres_backe.Accounting.Processor.Settled.{Posts}
use mathlib.Core.Option.{none}
use gestion_alquileres_backe.Accounting.Books.Faultless.{post_positive-Calm, post_and_mark-Calm}
use gestion_alquileres_backe.Transaction.Rules.{NoFaults}
use gestion_alquileres_backe.Accounting.Tables.{PostedJournalEntry}
use gestion_alquileres_backe.Transaction.Faults.{
  Calm, throw-Calm, >>-Calm, zoom-Calm, throw_when-Calm, >>=-Calm, select-Calm,
}
use gestion_alquileres_backe.Accounting.Books.{
  BooksTables, BookedPayment, BookedRefund, BookedExpense, BookedExpensePayment, BookedStatement,
  PostingError, no_such_payment, no_such_refund, no_such_expense, no_such_expense_payment,
  no_such_statement, in_ledger, bad_amount, not_paid, statement_off_balance, paid_posted,
}
use gestion_alquileres_backe.Prelude.{
  List, Option, ℕ, All, ◌≡◌, ◌∷◌, some, Bool-cases, ok, Result, none, [], inl, ap, refl, inr, ◌∙◌,
  err,
}
use gestion_alquileres_backe.Money.Currency.{Code, code_eq}
use gestion_alquileres_backe.Accounting.Books.Postings.{
  post_payment, post_refund, post_found_expense, post_settled_expense, post_vendor_payment,
  post_statement, post_transfer, post_approved_payment, post_payment_refund, post_expense,
  post_expense_payment, post_expense_vendor_payment, post_generated_statement,
  post_statement_transfer, mark_payment_posted, mark_refund_posted, mark_expense_posted,
  mark_expense_payment_posted, mark_statement_transferred, approved_payment_rows, expenses_of,
  mark_statement_generated, expense_payments_of, refunds_of, statements_of,
}
use gestion_alquileres_backe.Accounting.Processor.{
  on_payload, dispatch, handlers, for_id, OutboxRow, handle_event, Payload, Handler,
  ProcessorTables, books_of, bad_payload, unsupported_event, with_books, in_posting, valid_id,
  claimed,
}
use gestion_alquileres_backe.Transaction.{
  zoom, Action, throw, Session, Failure, unzoom, thrown, query_failed,
}
use gestion_alquileres_backe.Money.Decimal.{DecimalLib}

module _ ⦃dec : DecimalLib⦄ where
  post_payment-Calm : (uuid : Code) (rows : List BookedPayment) → Calm (post_payment uuid rows)
  unfolding post_payment
  post_payment-Calm uuid [] = throw-Calm no_such_payment
  post_payment-Calm uuid (p ∷ rest) = post_positive-Calm _ _ uuid (mark_payment_posted p.id)

  post_refund-Calm :
      (uuid : Code) (rows : List (BookedRefund × BookedPayment)) → Calm (post_refund uuid rows)
  unfolding post_refund
  post_refund-Calm uuid [] = throw-Calm no_such_refund
  post_refund-Calm uuid ((r, p) ∷ rest) = post_positive-Calm _ _ uuid (mark_refund_posted r.id)

  post_found_expense-Calm :
      (uuid : Code) (rows : List BookedExpense) → Calm (post_found_expense uuid rows)
  unfolding post_found_expense
  post_found_expense-Calm uuid [] = throw-Calm no_such_expense
  post_found_expense-Calm uuid (e ∷ rest) =
      post_positive-Calm _ _ uuid (mark_expense_posted in_ledger e.id)

  post_settled_expense-Calm :
      (uuid : Code) (rows : List BookedExpense) → Calm (post_settled_expense uuid rows)
  unfolding post_settled_expense
  post_settled_expense-Calm uuid [] = throw-Calm no_such_expense
  post_settled_expense-Calm uuid (e ∷ rest) = >>-Calm (throw_when-Calm _ bad_amount) (
      >>-Calm (throw_when-Calm _ not_paid)
        (post_and_mark-Calm _ uuid (mark_expense_posted paid_posted e.id)))

  post_vendor_payment-Calm :
      (uuid : Code) (rows : List (BookedExpensePayment × BookedExpense))
      → Calm (post_vendor_payment uuid rows)
  unfolding post_vendor_payment
  post_vendor_payment-Calm uuid [] = throw-Calm no_such_expense_payment
  post_vendor_payment-Calm uuid ((p, e) ∷ rest) =
      post_positive-Calm _ _ uuid (mark_expense_payment_posted p.id)

  post_statement-Calm :
      (uuid : Code) (rows : List BookedStatement) → Calm (post_statement uuid rows)
  unfolding post_statement
  post_statement-Calm uuid [] = throw-Calm no_such_statement
  post_statement-Calm uuid (s ∷ rest) = >>-Calm (throw_when-Calm _ bad_amount) (
      >>-Calm (throw_when-Calm _ statement_off_balance)
        (post_and_mark-Calm _ uuid (mark_statement_generated s.id)))

  post_transfer-Calm :
      (today uuid : Code) (rows : List BookedStatement) → Calm (post_transfer today uuid rows)
  unfolding post_transfer
  post_transfer-Calm today uuid [] = throw-Calm no_such_statement
  post_transfer-Calm today uuid (s ∷ rest) =
      post_positive-Calm _ _ uuid (mark_statement_transferred s.id)

  handlers-Calm :
      (today uuid : Code) → All (λ handler. (id : ℕ) → Calm (handler.post id)) (handlers today uuid)
  unfolding handlers post_approved_payment post_payment_refund post_expense post_expense_payment
      post_expense_vendor_payment post_generated_statement post_statement_transfer
  handlers-Calm today uuid = (
    (λ id. >>=-Calm (select-Calm (approved_payment_rows id)) (post_payment-Calm uuid)),
    (
      (λ id. >>=-Calm (select-Calm (expenses_of id)) (post_found_expense-Calm uuid)),
      (
        (λ id. >>=-Calm (select-Calm (expenses_of id)) (post_settled_expense-Calm uuid)),
        (
          (λ id. >>=-Calm (select-Calm (expense_payments_of id)) (post_vendor_payment-Calm uuid)),
          (
            (λ id. >>=-Calm (select-Calm (refunds_of id)) (post_refund-Calm uuid)),
            (
              (λ id. >>=-Calm (select-Calm (statements_of id)) (post_statement-Calm uuid)),
              (
                (λ id. >>=-Calm (select-Calm (statements_of id)) (post_transfer-Calm today uuid)),
                tt,
              ),
            ),
          ),
        ),
      ),
    ),
  )

-- the outbox is not the service's
outbox_of_zoom :
    (post : Action BooksTables PostingError PostedJournalEntry) (s : Session ProcessorTables)
    → (zoom books_of with_books in_posting post s).1.store.accounting_outbox
      ≡ s.store.accounting_outbox
unfolding zoom
outbox_of_zoom post s =
    go (post (record { store = s.store.books; queries = s.queries; fails = s.fails }))
  where
    go :
        (r : Result (Failure PostingError) PostedJournalEntry × Session BooksTables)
        → (unzoom with_books in_posting s r).1.store.accounting_outbox ≡ s.store.accounting_outbox
    go (ok a, x) = refl
    go (err (thrown e), x) = refl
    go (err query_failed, x) = refl

on_payload-outbox :
    (payload : Option Payload) (handler : Handler) (s : Session ProcessorTables)
    → (on_payload payload handler s).1.store.accounting_outbox ≡ s.store.accounting_outbox
unfolding on_payload for_id throw
on_payload-outbox none handler s = refl
on_payload-outbox (some payload) handler s = go (valid_id (handler.field payload))
  where
    go :
        (id : Option ℕ)
        → (for_id id handler.missing handler.post s).1.store.accounting_outbox
          ≡ s.store.accounting_outbox
    go none = refl
    go (some id) = outbox_of_zoom (handler.post id) s

dispatch-outbox :
    (event : OutboxRow) (list : List Handler) (s : Session ProcessorTables)
    → (dispatch event list s).1.store.accounting_outbox ≡ s.store.accounting_outbox
unfolding dispatch throw
dispatch-outbox event [] s = refl
dispatch-outbox event (handler ∷ rest) s =
    elim (Bool-cases (code_eq event.event_type handler.name)) [
      | inl here ↦ rw here (on_payload-outbox event.payload handler s)
      | inr later ↦ rw later (dispatch-outbox event rest s)
    ]

on_payload-Calm :
    (payload : Option Payload) (handler : Handler)
    → ((id : ℕ) → Calm (handler.post id))
    → Calm (on_payload payload handler)
unfolding on_payload for_id
on_payload-Calm none handler c = throw-Calm bad_payload
on_payload-Calm (some payload) handler c = go (valid_id (handler.field payload))
  where
    go : (id : Option ℕ) → Calm (for_id id handler.missing handler.post)
    go none = throw-Calm handler.missing
    go (some id) = zoom-Calm books_of with_books in_posting (c id)

dispatch-Calm :
    (event : OutboxRow) (list : List Handler)
    → All (λ handler. (id : ℕ) → Calm (handler.post id)) list
    → Calm (dispatch event list)
unfolding dispatch
dispatch-Calm event [] c = throw-Calm unsupported_event
dispatch-Calm event (handler ∷ rest) (c, cs) =
    elim (Bool-cases (code_eq event.event_type handler.name)) [
      | inl here ↦ rw here (on_payload-Calm event.payload handler c)
      | inr later ↦ rw later (dispatch-Calm event rest cs)
    ]

module _ ⦃dec : DecimalLib⦄ (today : Code) (uuid : OutboxRow → Code) where
  -- What is asked of `handleEvent` for an event to be posted in the end holds of the services, but for
  -- what depends on the event: that the books stay ready for it, and that its posting then returns.
  pub handle_event-Posts :
      (target : ℕ) (Own : OutboxRow → Type 0) (Ready : BooksTables → Type 0)
      → ((row : OutboxRow) → Own row → Own (claimed row))
      → ((event : OutboxRow) (s : Session ProcessorTables)
          → Ready s.store.books
          → Ready (handle_event today (uuid event) event s).1.store.books)
      → ((event : OutboxRow) (s : Session ProcessorTables)
          → event.id ≡ target
          → Own event
          → NoFaults s
          → Ready s.store.books
          → (entry : PostedJournalEntry) × ((handle_event today (uuid event) event s).0 ≡ ok entry))
      → Posts (λ event. handle_event today (uuid event) event) target Own Ready
  unfolding handle_event
  handle_event-Posts target Own Ready same stays returns = record {
    claimed_same = same;
    faultless = λ event s n k.
        ap (λ fails. fails k)
          ((dispatch-Calm event _ (handlers-Calm today (uuid event))).same_fails s)
        ∙ n k;
    same_outbox = λ event s. dispatch-outbox event _ s;
    stays_ready = stays;
    returns = returns;
  }
