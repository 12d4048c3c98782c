-- ===== src/Accounting/Closing.antt =====
-- A closed month of src/accounting/accounting-periods.service.ts takes no entry of
-- src/accounting/accounting-ledger.service.ts.
use gestion_alquileres_backe.Prelude.Int.{pos_part}
use mathlib.Core.Option.{none}
use gestion_alquileres_backe.Accounting.Validation.{validate_entry}
use gestion_alquileres_backe.Accounting.Ledger.Steps.{closed_month-Lands, find_existing_entry-Lands}
use gestion_alquileres_backe.Transaction.Rules.{
  Keeps, pure-Keeps, >>-Keeps, throw_when-Keeps, throw-Keeps,
}
use gestion_alquileres_backe.Transaction.{Session}
use gestion_alquileres_backe.Money.Currency.{Code}
use gestion_alquileres_backe.Transaction.Commit.{
  Lands, lift->>-Lands, landed_ok, throw-Lands, Keeps→Lands, lift->>-Keeps, Lands→Keeps,
  select->>=-Lands, query->>=-Lands,
}
use gestion_alquileres_backe.Accounting.Reversal.{reverse_entry, reverse_found, postings_of}
use gestion_alquileres_backe.Accounting.Ledger.{post_entry, post_unless}
use gestion_alquileres_backe.Accounting.Tables.{
  LedgerTables, PostJournalEntryInput, ReverseJournalEntryInput, AccountingPeriod,
  PostedJournalEntry, JournalEntry, entry_not_found, bad_entry_id, period_not_found,
}
use gestion_alquileres_backe.Money.Decimal.{DecimalLib}
use gestion_alquileres_backe.Accounting.Periods.{
  is_closed, close_period, is_period, find_period, period_of, upsert_period, closed_row, new_period,
  state_of, upserted,
}
use gestion_alquileres_backe.Prelude.{
  ℕ, Option, ◌≡◌, true, List, ok, ◌∷◌, Bool-cases, inl, some, inr, [], ap, ◌∙◌, refl, arith,
}
use gestion_alquileres_backe.Accounting.Dates.{
  YearMonth, validate_year_month, parse_accounting_date,
}

-- the month stands closed
abbrev IsClosed : YearMonth → LedgerTables → Type 0
IsClosed date t = is_closed (period_of date t) ≡ true

same_month : (year month : ℕ) → is_period year month (new_period year month) ≡ true
same_month year month = ground arith

found_closed :
    (now : ℕ) (by : Option ℕ) (year month : ℕ) (periods : List AccountingPeriod)
    → is_closed (find_period year month (upsert_period (closed_row now by) year month periods))
      ≡ true
unfolding is_closed find_period upsert_period closed_row
found_closed now by year month [] = rw (same_month year month) refl
found_closed now by year month (p ∷ ps) = elim (Bool-cases (is_period year month p)) [
  | inl here ↦ rw here (rw here refl)
  | inr later ↦ rw later (rw later (found_closed now by year month ps))
]

pub state_of-Keeps :
    {P : LedgerTables → Type 0} (period : Option AccountingPeriod) → Keeps P (state_of period)
unfolding state_of
state_of-Keeps none = throw-Keeps period_not_found
state_of-Keeps (some period) = pure-Keeps period

close_period-IsClosed :
    (now year month : ℕ) (by : Option ℕ) (t : LedgerTables)
    → Lands t (close_period now year month by) (IsClosed (record { year = year; month = month }))
unfolding close_period upserted
close_period-IsClosed now year month by t =
    lift->>-Lands (validate_year_month year month) _ t (λ done v.
      query->>=-Lands (upserted (closed_row now by) year month) state_of t
        (Keeps→Lands _ _ (found_closed now by year month t.accounting_periods) (state_of-Keeps _)))

module _ ⦃dec : DecimalLib⦄ where
  post_entry_closed :
      (input : PostJournalEntryInput) (uuid : Code) (date : YearMonth) (t : LedgerTables)
      → parse_accounting_date input.entry_date ≡ ok date
      → IsClosed date t
      → Keeps (λ x. x ≡ t) (post_entry input uuid)
  unfolding post_entry post_unless
  post_entry_closed input uuid date t d closed = lift->>-Keeps (validate_entry input) _ (λ done v.
      Lands→Keeps _
        (λ u same. find_existing_entry-Lands input.source_module input.source_id _ u (go u same)))
    where
      go :
          (u : LedgerTables)
          → u ≡ t
          → (found : Option PostedJournalEntry)
          → Lands u (post_unless found input uuid) (λ x. x ≡ t)
      go u same (some e) = Keeps→Lands _ u same (pure-Keeps e)
      go u same none =
          rw d (closed_month-Lands date _ u (ap (λ x. is_closed (period_of date x)) same ∙ closed))

  reverse_entry_closed :
      (input : ReverseJournalEntryInput) (uuid : Code) (date : YearMonth) (t : LedgerTables)
      → parse_accounting_date input.reversal_date ≡ ok date
      → IsClosed date t
      → Keeps (λ x. x ≡ t) (reverse_entry input uuid)
  unfolding reverse_entry reverse_found
  reverse_entry_closed input uuid date t d closed = >>-Keeps (throw_when-Keeps _ bad_entry_id) (
      Lands→Keeps _
        (λ u same. select->>=-Lands (postings_of (pos_part input.entry_id)) _ u (go u same _)))
    where
      go :
          (u : LedgerTables)
          → u ≡ t
          → (found : List JournalEntry) → Lands u (reverse_found input uuid found) (λ x. x ≡ t)
      go u same [] = throw-Lands entry_not_found u
      go u same (original ∷ rest) =
          rw d (closed_month-Lands date _ u (ap (λ x. is_closed (period_of date x)) same ∙ closed))

  -- A month that `closePeriod` has closed takes nothing more: no posting and no reversal that is dated
  -- in it changes any table, whatever it holds and whichever way it ends.
  pub close_period_refuses :
      (now year month : ℕ) (by : Option ℕ) (state : AccountingPeriod)
      (input : PostJournalEntryInput) (reversal : ReverseJournalEntryInput) (uuid : Code)
      (s : Session LedgerTables)
      → (close_period now year month by s).0 ≡ ok state
      → parse_accounting_date input.entry_date ≡ ok (record { year = year; month = month })
      → parse_accounting_date reversal.reversal_date ≡ ok (record { year = year; month = month })
      → let closed = (close_period now year month by s).1 in
        ((post_entry input uuid closed).1.store ≡ closed.store)
        × ((reverse_entry reversal uuid closed).1.store ≡ closed.store)
  close_period_refuses now year month by state input reversal uuid s h d d' =
      let date : YearMonth = record { year = year; month = month } in
      let t = (close_period now year month by s).1.store in
      let closed =
        landed_ok (IsClosed date) _ state
          ((close_period-IsClosed now year month by s.store).lands s refl) h in
      (
        (post_entry_closed input uuid date t d closed).keep _ refl,
        (reverse_entry_closed reversal uuid date t d' closed).keep _ refl,
      )
