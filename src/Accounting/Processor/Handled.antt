-- ===== src/Accounting/Processor/Handled.antt =====
-- What the posting services keep of the books, `handleEvent` of
-- src/accounting/accounting-outbox.processor.ts keeps.
use mathlib.Core.Option.{none}
use gestion_alquileres_backe.Transaction.Commit.{zoom-Keeps}
use gestion_alquileres_backe.Accounting.Books.Kept.{
  post_approved_payment-Keeps, post_expense-Keeps, post_expense_payment-Keeps,
  post_expense_vendor_payment-Keeps, post_payment_refund-Keeps, post_generated_statement-Keeps,
  post_statement_transfer-Keeps,
}
use gestion_alquileres_backe.Prelude.{
  All, ℕ, Option, List, some, ◌∷◌, Bool-cases, inl, inr, [], none, refl,
}
use gestion_alquileres_backe.Accounting.Processor.{
  handlers, on_payload, dispatch, handle_event, for_id, OutboxRow, Payload, Handler, bad_payload,
  unsupported_event, books_of, with_books, in_posting, valid_id,
}
use gestion_alquileres_backe.Accounting.Books.Rules.{KeptByMarks}
use gestion_alquileres_backe.Accounting.Ledger.{post_entry}
use gestion_alquileres_backe.Accounting.Books.Postings.{ledger_call}
use gestion_alquileres_backe.Transaction.Rules.{Keeps, throw-Keeps}
use gestion_alquileres_backe.Money.Currency.{Code, code_eq}
use gestion_alquileres_backe.Accounting.Tables.{PostJournalEntryInput}
use gestion_alquileres_backe.Accounting.Books.{BooksTables}
use gestion_alquileres_backe.Money.Decimal.{DecimalLib}

module _ ⦃dec : DecimalLib⦄ {P : BooksTables → Type 0}
    (keeps : (input : PostJournalEntryInput) (uuid : Code)
      → Keeps P (ledger_call (post_entry input uuid)))
    (marks : KeptByMarks P) where
  handlers-Keep :
      (today uuid : Code)
      → All (λ handler. (id : ℕ) → Keeps P (handler.post id)) (handlers today uuid)
  unfolding handlers
  handlers-Keep today uuid = (
    (λ id. post_approved_payment-Keeps keeps marks id uuid),
    (
      (λ id. post_expense-Keeps keeps marks id uuid),
      (
        (λ id. post_expense_payment-Keeps keeps marks id uuid),
        (
          (λ id. post_expense_vendor_payment-Keeps keeps marks id uuid),
          (
            (λ id. post_payment_refund-Keeps keeps marks id uuid),
            (
              (λ id. post_generated_statement-Keeps keeps marks id uuid),
              ((λ id. post_statement_transfer-Keeps keeps marks id today uuid), tt),
            ),
          ),
        ),
      ),
    ),
  )

  on_payload-Keeps :
      (payload : Option Payload) (handler : Handler)
      → ((id : ℕ) → Keeps P (handler.post id))
      → Keeps (λ t. P t.books) (on_payload payload handler)
  unfolding on_payload for_id
  on_payload-Keeps none handler h = throw-Keeps bad_payload
  on_payload-Keeps (some payload) handler h = go (valid_id (handler.field payload))
    where
      go : (id : Option ℕ) → Keeps (λ t. P t.books) (for_id id handler.missing handler.post)
      go none = throw-Keeps handler.missing
      go (some id) = zoom-Keeps {P = P} books_of with_books in_posting (λ b t. refl) (h id)

  dispatch-Keeps :
      (event : OutboxRow) (list : List Handler)
      → All (λ handler. (id : ℕ) → Keeps P (handler.post id)) list
      → Keeps (λ t. P t.books) (dispatch event list)
  unfolding dispatch
  dispatch-Keeps event [] h = throw-Keeps unsupported_event
  dispatch-Keeps event (handler ∷ rest) (k, h) =
      elim (Bool-cases (code_eq event.event_type handler.name)) [
        | inl here ↦ rw here (on_payload-Keeps event.payload handler k)
        | inr later ↦ rw later (dispatch-Keeps event rest h)
      ]

  pub handle_event-Keeps :
      (today uuid : Code) (event : OutboxRow)
      → Keeps (λ t. P t.books) (handle_event today uuid event)
  unfolding handle_event
  handle_event-Keeps today uuid event = dispatch-Keeps event _ (handlers-Keep today uuid)
