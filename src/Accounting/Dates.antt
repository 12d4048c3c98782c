-- ===== src/Accounting/Dates.antt =====
-- src/accounting/accounting-periods.service.ts, `parseAccountingDate` and `validateYearMonth`.
use mathlib.Core.Option.{none}
use gestion_alquileres_backe.Accounting.Tables.{
  LedgerError, bad_entry_date, bad_period_year, bad_period_month,
}
use gestion_alquileres_backe.Money.Currency.{Code}
use gestion_alquileres_backe.Prelude.{
  ◌>>◌, ℕ, Option, Result, Bool, ◌-◌, leb, true, throw_if, ◌&&◌, ◌∷◌, err, ltb, [], if◌then◌else◌,
  ◌||◌, ◌==◌, some, ◌*◌, ok, ◌+◌, none,
}

pub record YearMonth : Type 0 where
  pub year : ℕ
  pub month : ℕ

-- `validateYearMonth`
unfoldable pub validate_year_month : ℕ → ℕ → Result LedgerError (Unit {0})
validate_year_month year month =
    throw_if (ltb year 2000 || ltb 2100 year) bad_period_year
    >> throw_if (ltb month 1 || ltb 12 month) bad_period_month

-- `\d`
abbrev is_digit : ℕ → Bool
is_digit c = leb b'0' c && leb c b'9'

digits_only : Code → Bool
digits_only [] = true
digits_only (c ∷ cs) = is_digit c && digits_only cs

abbrev digit : ℕ → ℕ
digit c = c - b'0'

-- `/^(\d{4})-(\d{2})-\d{2}$/` and the numbers of its groups
unfoldable pub match_date : Code → Option YearMonth
unfolding digits_only
match_date (a ∷ b ∷ c ∷ d ∷ dash ∷ e ∷ f ∷ dash' ∷ g ∷ h ∷ []) =
    if digits_only (a ∷ b ∷ c ∷ d ∷ e ∷ f ∷ g ∷ h ∷ []) && dash == b'-' && dash' == b'-'
    then some (record {
      year = digit a * 1000 + digit b * 100 + digit c * 10 + digit d;
      month = digit e * 10 + digit f;
    })
    else none
match_date _ = none

-- `parseAccountingDate`, on what the pattern matched
unfoldable pub checked_date : Option YearMonth → Result LedgerError YearMonth
checked_date none = err bad_entry_date
checked_date (some date) = validate_year_month date.year date.month >> ok date

abbrev pub parse_accounting_date : Code → Result LedgerError YearMonth
parse_accounting_date entry_date = checked_date (match_date entry_date)
