-- ===== src/Accounting/Books/Collision.antt =====
-- src/accounting/accounting-expense-posting.service.ts: `postExpensePayment` and
-- `postExpenseVendorPayment` give their entries the same source module, with the number of an expense
-- in one and the number of a payment of an expense in the other.
use gestion_alquileres_backe.Accounting.Ledger.{post_entry, is_given}
use mathlib.Core.Path.{subst}
use gestion_alquileres_backe.Accounting.Books.Rules.{
  post_positive-Keeps, post_and_mark-Lands, ledger_call-Keeps,
}
use gestion_alquileres_backe.Transaction.Rules.{Keeps, throw-Keeps, select->>=-Keeps}
use gestion_alquileres_backe.Accounting.Reversal.{to_text, to_text_given}
use gestion_alquileres_backe.Accounting.Ledger.Once.{IsPosted, second_entry-Keeps, source_lands}
use gestion_alquileres_backe.Transaction.Commit.{
  Lands, landed_ok, throw-Lands, select->>=-Lands, throw_when->>-Lands,
}
use gestion_alquileres_backe.Transaction.{Session}
use gestion_alquileres_backe.Accounting.Tables.{PostedJournalEntry, LedgerTables}
use gestion_alquileres_backe.Accounting.Books.Entries.{expense_payment_entry, vendor_payment_entry}
use gestion_alquileres_backe.Money.Currency.{Code, codes}
use gestion_alquileres_backe.Accounting.Books.{
  BookedExpensePayment, BookedExpense, BooksTables, no_such_expense, no_such_expense_payment,
  bad_amount, not_paid, paid_posted,
}
use gestion_alquileres_backe.Money.Decimal.{DecimalLib}
use gestion_alquileres_backe.Accounting.Books.Postings.{
  joined_expense_payments, post_settled_expense, post_vendor_payment, post_expense_payment,
  post_expense_vendor_payment, mark_expense_posted, mark_expense_payment_posted, expenses_of,
  expense_payments_of, ledger_of,
}
use gestion_alquileres_backe.Prelude.{
  ℕ, Option, List, some, All, ◌≡◌, filter_by, ◌∷◌, ◌==◌, map, ok, Bool-cases, inl, ==_iff,
  All-append, inr, [], sym, refl, ◌&&◌, true, ap, ◌∙◌,
}

-- rows that are found by their number have it
found_number :
    (id : ℕ) (es : List BookedExpense) → All (λ e. e.id ≡ id) (filter_by (λ e. e.id == id) es)
found_number id [] = tt
found_number id (e ∷ es) = elim (Bool-cases (e.id == id)) [
  | inl own ↦ rw (own, filter_by) ((==_iff e.id id).0 own, found_number id es)
  | inr other ↦ rw (other, filter_by) (found_number id es)
]

abbrev HasNumber : ℕ → BookedExpensePayment × BookedExpense → Type 0
HasNumber id row = row.0.id ≡ id

joined_number :
    (id : ℕ) (expenses : List BookedExpense) (ps : List BookedExpensePayment)
    → All (HasNumber id) (joined_expense_payments id expenses ps)
unfolding joined_expense_payments
joined_number id expenses [] = tt
joined_number id expenses (p ∷ ps) = elim (Bool-cases (p.id == id)) [
  | inl own ↦ rw own (
      All-append (HasNumber id) _ _ (paired ((==_iff p.id id).0 own) (filter_by _ expenses))
        (joined_number id expenses ps))
  | inr other ↦ rw other (joined_number id expenses ps)
]
  where
    paired : p.id ≡ id → (es : List BookedExpense) → All (HasNumber id) (map (λ e. (p, e)) es)
    paired own [] = tt
    paired own (e ∷ es) = (own, paired own es)

abbrev source : Option Code
source = some (codes "expense-payments")

source_given : (n : ℕ) → is_given source && is_given (some (to_text n)) ≡ true
unfolding is_given
source_given n = to_text_given n

module _ ⦃dec : DecimalLib⦄ where
  settled-Lands :
      (id : ℕ) (uuid : Code) (b : BooksTables) (found : List BookedExpense)
      → All (λ e. e.id ≡ id) found
      → Lands b
          (post_settled_expense uuid found)
          (λ x. IsPosted source (some (to_text id)) x.ledger)
  unfolding post_settled_expense expense_payment_entry mark_expense_posted
  settled-Lands id uuid b [] h = throw-Lands no_such_expense b
  settled-Lands id uuid b (e ∷ rest) (own, h) = throw_when->>-Lands _ bad_amount _ b (λ g.
      throw_when->>-Lands _ not_paid _ b (λ g'.
        post_and_mark-Lands (expense_payment_entry e) uuid (mark_expense_posted paid_posted e.id) b
          (λ entry x. refl)
          (subst
            (λ n.
              Lands b.ledger (post_entry (expense_payment_entry e) uuid)
                (IsPosted source (some (to_text n))))
            own (source_lands (expense_payment_entry e) uuid b.ledger (source_given e.id)))))

  vendor-Keeps :
      (id : ℕ) (uuid : Code) (t : LedgerTables)
      (found : List (BookedExpensePayment × BookedExpense))
      → All (HasNumber id) found
      → IsPosted source (some (to_text id)) t
      → Keeps (λ b. b.ledger ≡ t) (post_vendor_payment uuid found)
  unfolding post_vendor_payment vendor_payment_entry mark_expense_payment_posted
  vendor-Keeps id uuid t [] h there = throw-Keeps no_such_expense_payment
  vendor-Keeps id uuid t ((p, e) ∷ rest) (own, h) there =
      post_positive-Keeps p.amount (vendor_payment_entry p e) uuid
        (mark_expense_payment_posted p.id) (λ entry x same. same)
        (ledger_call-Keeps (λ l. l ≡ t)
          (second_entry-Keeps (vendor_payment_entry p e) uuid t (source_given p.id)
            (subst (λ n. IsPosted source (some (to_text n)) t) (sym own) there)))

  -- Once `postExpensePayment` has returned for an expense, `postExpenseVendorPayment` of the payment
  -- that has the expense's number posts nothing: every table of the ledger stays as it was, whichever
  -- expense the payment is of, whatever its amount and whichever way the call ends.
  pub vendor_payment_not_posted :
      (id : ℕ) (uuid uuid' : Code) (entry : PostedJournalEntry) (s : Session BooksTables)
      → (post_expense_payment id uuid s).0 ≡ ok entry
      → let paid = (post_expense_payment id uuid s).1 in
        (post_expense_vendor_payment id uuid' paid).1.store.ledger ≡ paid.store.ledger
  unfolding post_expense_payment post_expense_vendor_payment
  vendor_payment_not_posted id uuid uuid' entry s h =
      let t = (post_expense_payment id uuid s).1.store.ledger in
      let there =
        landed_ok (λ x. IsPosted source (some (to_text id)) x.ledger) _ entry
          ((select->>=-Lands (expenses_of id) (post_settled_expense uuid) s.store
              (settled-Lands id uuid s.store _ (found_number id s.store.expenses))).lands
            s refl)
          h in
      (select->>=-Keeps (expense_payments_of id) (post_vendor_payment uuid') (λ b same. record {
        ends = λ x e.
            (vendor-Keeps id uuid' t (expense_payments_of id b)
                (joined_number id b.expenses b.expense_payments) there).keep
              x (ap ledger_of e ∙ same);
      })).keep
        (post_expense_payment id uuid s).1 refl
