-- ===== src/Accounting/Calls.antt =====
-- The ledger's life: any calls of src/accounting/accounting-ledger.service.ts and
-- accounting-periods.service.ts, one after another, whose callers go on after an exception.
use gestion_alquileres_backe.Accounting.Closing.{state_of-Keeps}
use gestion_alquileres_backe.Transaction.Rules.{>>-Keeps, throw_when-Keeps, >>=-Keeps, Keeps}
use gestion_alquileres_backe.Accounting.Dates.{validate_year_month}
use gestion_alquileres_backe.Transaction.Commit.{lift->>-Keeps, query-Keeps}
use gestion_alquileres_backe.Accounting.Reversal.Balance.{reverse_entry-Keeps}
use gestion_alquileres_backe.Accounting.Ledger.Posting.{post_entry-Keeps}
use gestion_alquileres_backe.Accounting.Reversal.{reverse_entry}
use gestion_alquileres_backe.Accounting.Ledger.Balance.{IsBalanced}
use gestion_alquileres_backe.Accounting.Ledger.{post_entry}
use gestion_alquileres_backe.Accounting.Periods.{
  close_period, reopen_period, closed_row, reopened_row, upserted, state_of,
}
use gestion_alquileres_backe.Prelude.{List, ℕ, Option, ◌∷◌, []}
use gestion_alquileres_backe.Transaction.{Session, query, ◌>>=◌}
use gestion_alquileres_backe.Money.Currency.{Code, trimmed}
use gestion_alquileres_backe.Money.Decimal.{DecimalLib}
use gestion_alquileres_backe.Accounting.Tables.{
  PostJournalEntryInput, AccountingPeriod, ReverseJournalEntryInput, LedgerTables, no_reopen_reason,
}

pub data LedgerCall : Type 0 where
  posts : PostJournalEntryInput → Code → LedgerCall
  reverses : ReverseJournalEntryInput → Code → LedgerCall
  closes : ℕ → ℕ → ℕ → Option ℕ → LedgerCall
  reopens : ℕ → ℕ → ℕ → ℕ → Code → LedgerCall

module _ ⦃dec : DecimalLib⦄ where
  unfoldable pub run_call : LedgerCall → Session LedgerTables → Session LedgerTables
  run_call (posts input uuid) s = (post_entry input uuid s).1
  run_call (reverses input uuid) s = (reverse_entry input uuid s).1
  run_call (closes now year month by) s = (close_period now year month by s).1
  run_call (reopens now year month by reason) s = (reopen_period now year month by reason s).1

  unfoldable pub run_calls : List LedgerCall → Session LedgerTables → Session LedgerTables
  run_calls [] s = s
  run_calls (call ∷ calls) s = run_calls calls (run_call call s)

  changed_period-Keeps :
      (change : AccountingPeriod → AccountingPeriod) (year month : ℕ)
      → Keeps IsBalanced (query (upserted change year month) >>= state_of)
  unfolding upserted
  changed_period-Keeps change year month =
      >>=-Keeps
        (query-Keeps (upserted change year month)
          (λ t b. record { balanced = b.balanced; numbered = b.numbered }))
        state_of-Keeps

  run_call-IsBalanced :
      (call : LedgerCall) (s : Session LedgerTables)
      → IsBalanced s.store
      → IsBalanced (run_call call s).store
  unfolding run_call close_period reopen_period
  run_call-IsBalanced (posts input uuid) s = (post_entry-Keeps input uuid).keep s
  run_call-IsBalanced (reverses input uuid) s = (reverse_entry-Keeps input uuid).keep s
  run_call-IsBalanced (closes now year month by) s =
      (lift->>-Keeps (validate_year_month year month) _
          (λ done v. changed_period-Keeps (closed_row now by) year month)).keep
        s
  run_call-IsBalanced (reopens now year month by reason) s =
      (lift->>-Keeps (validate_year_month year month) _ (λ done v.
          >>-Keeps (throw_when-Keeps _ no_reopen_reason)
            (changed_period-Keeps (reopened_row now by (trimmed reason)) year month))).keep
        s

  -- The double entry: whatever is posted, reversed, closed and reopened, in whichever order, and
  -- whichever queries fail, a ledger whose entries balanced to the cent before is one whose entries all
  -- balance to the cent afterwards.
  pub ledger_balances :
      (calls : List LedgerCall) (s : Session LedgerTables)
      → IsBalanced s.store
      → IsBalanced (run_calls calls s).store
  unfolding run_calls
  ledger_balances [] s b = b
  ledger_balances (call ∷ calls) s b =
      ledger_balances calls (run_call call s) (run_call-IsBalanced call s b)
