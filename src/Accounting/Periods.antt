-- ===== src/Accounting/Periods.antt =====
-- src/accounting/accounting-periods.service.ts: the months that are closed to new entries.
use gestion_alquileres_backe.Accounting.Validation.{is_blank_code}
use mathlib.Core.Option.{none}
use gestion_alquileres_backe.Accounting.Dates.{
  YearMonth, parse_accounting_date, validate_year_month,
}
use gestion_alquileres_backe.Transaction.{
  Action, ◌>>◌, lift, throw, throw_when, ◌>>=◌, select, query, pure,
}
use gestion_alquileres_backe.Money.Currency.{Code, trimmed}
use gestion_alquileres_backe.Accounting.Tables.{
  PeriodStatus, AccountingPeriod, LedgerError, closed_period, open_period, LedgerTables,
  no_reopen_reason, period_is_closed, period_not_found,
}
use gestion_alquileres_backe.Prelude.{
  ℕ, Option, Result, Bool, List, some, ◌==◌, none, false, ◌∷◌, ◌&&◌, if◌then◌else◌, true, err, [],
  ok,
}

abbrev pub is_period : ℕ → ℕ → AccountingPeriod → Bool
is_period year month p = p.period_year == year && p.period_month == month

-- `findPeriod`: the first row of the month
unfoldable pub find_period : ℕ → ℕ → List AccountingPeriod → Option AccountingPeriod
find_period year month [] = none
find_period year month (p ∷ ps) =
    if is_period year month p then some p else find_period year month ps

-- `period?.status === 'closed'`
abbrev pub closed_status : PeriodStatus → Bool
closed_status open_period = false
closed_status closed_period = true

unfoldable pub is_closed : Option AccountingPeriod → Bool
is_closed none = false
is_closed (some p) = closed_status p.status

-- the query of `findPeriod`
abbrev pub period_of : YearMonth → LedgerTables → Option AccountingPeriod
period_of date t = find_period date.year date.month t.accounting_periods

-- `assertPeriodOpen`, on the period that was found
abbrev pub refuse_closed : Option AccountingPeriod → Action LedgerTables LedgerError (Unit {0})
refuse_closed period = throw_when (is_closed period) period_is_closed

-- `assertPeriodOpen`, on the date that was parsed
unfoldable pub assert_month_open :
    Result LedgerError YearMonth → Action LedgerTables LedgerError (Unit {0})
assert_month_open (err e) = throw e
assert_month_open (ok date) = select (period_of date) >>= refuse_closed

-- `assertPeriodOpen`
abbrev pub assert_period_open : Code → Action LedgerTables LedgerError (Unit {0})
assert_period_open entry_date = assert_month_open (parse_accounting_date entry_date)

-- `COALESCE(a, b)`
abbrev coalesce : Option ℕ → Option ℕ → Option ℕ
coalesce none b = b
coalesce (some a) b = some a

-- the row that `closePeriod` leaves, at the moment `now`
unfoldable pub closed_row : ℕ → Option ℕ → AccountingPeriod → AccountingPeriod
closed_row now by p = record p {
  status = closed_period;
  closed_at = coalesce p.closed_at (some now);
  closed_by = coalesce p.closed_by by;
}

-- the row that `reopenPeriod` leaves
unfoldable pub reopened_row : ℕ → ℕ → Code → AccountingPeriod → AccountingPeriod
reopened_row now by reason p = record p {
  status = open_period;
  reopened_at = some now;
  reopened_by = some by;
  reopen_reason = some reason;
}

abbrev pub new_period : ℕ → ℕ → AccountingPeriod
new_period year month = record {
  period_year = year;
  period_month = month;
  status = open_period;
  closed_at = none;
  closed_by = none;
  reopened_at = none;
  reopened_by = none;
  reopen_reason = none;
}

-- `INSERT … ON CONFLICT (period_year, period_month) DO UPDATE`: either way the row is the one that
-- `change` makes, of the row there is or of a new one
unfoldable pub upsert_period :
    (AccountingPeriod → AccountingPeriod) → ℕ → ℕ → List AccountingPeriod → List AccountingPeriod
upsert_period change year month [] = change (new_period year month) ∷ []
upsert_period change year month (p ∷ ps) =
    if is_period year month p then change p ∷ ps else p ∷ upsert_period change year month ps

abbrev pub with_period : (AccountingPeriod → AccountingPeriod) → ℕ → ℕ → LedgerTables → LedgerTables
with_period change year month t = record t {
  accounting_periods = upsert_period change year month t.accounting_periods;
}

-- the statement, which returns the row of the month
unfoldable pub upserted :
    (AccountingPeriod → AccountingPeriod)
    → ℕ
    → ℕ
    → LedgerTables
    → Option AccountingPeriod × LedgerTables
upserted change year month t =
    let after = with_period change year month t in
    (find_period year month after.accounting_periods, after)

-- `toState(rows[0])`
unfoldable pub state_of : Option AccountingPeriod → Action LedgerTables LedgerError AccountingPeriod
state_of none = throw period_not_found
state_of (some period) = pure period

-- `closePeriod`, at the moment `now`
unfoldable pub close_period :
    ℕ → ℕ → ℕ → Option ℕ → Action LedgerTables LedgerError AccountingPeriod
close_period now year month by =
    lift (validate_year_month year month)
    >> (query (upserted (closed_row now by) year month) >>= state_of)

-- `reopenPeriod`, at the moment `now`
unfoldable pub reopen_period :
    ℕ → ℕ → ℕ → ℕ → Code → Action LedgerTables LedgerError AccountingPeriod
reopen_period now year month by reason =
    lift (validate_year_month year month)
    >> (throw_when (is_blank_code reason) no_reopen_reason
        >> (query (upserted (reopened_row now by (trimmed reason)) year month) >>= state_of))

-- `getPeriod`
unfoldable pub get_period : ℕ → ℕ → Action LedgerTables LedgerError (Option AccountingPeriod)
get_period year month =
    lift (validate_year_month year month)
    >> select (λ t. find_period year month t.accounting_periods)
