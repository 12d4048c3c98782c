-- ===== src/SplitPayment/Conservation.antt =====
-- Dividing a payment among the owners: when no query fails, every owner gets a row of
-- payment_splits, and the rows add up to the payment.
use gestion_alquileres_backe.SplitPayment.Rows.{stored-parts, stored-parts}
use gestion_alquileres_backe.Transaction.{select, pure}
use gestion_alquileres_backe.Prelude.Int.{ℤ, pos}
use gestion_alquileres_backe.Money.Numeral.{Decimal, cents}
use gestion_alquileres_backe.Money.Currency.{get_currency_scale, normalize_currency}
use gestion_alquileres_backe.Prelude.Int.{◌*ℤ◌}
use gestion_alquileres_backe.Money.Value.{Money, to_minor_units, of}
use gestion_alquileres_backe.SplitPayment.{
  ExecuteSplitParams, OwnerRow, Period, Tables, fetch_maintenance_deductions, maintenance_total,
  SplitError,
}
use gestion_alquileres_backe.Money.Decimal.{DecimalLib}
use gestion_alquileres_backe.Prelude.{ℕ, Bool, true, false, List, map, ok, if◌then◌else◌, ◌^◌, ◌-◌}
use gestion_alquileres_backe.Transaction.Rules.{Yields, >>=-Yields, pure-Yields, select-Yields}

abbrev pub percentages : List OwnerRow → List ℤ
percentages owners = map (λ o. o.ownership_percentage) owners

fetch_branch-Yields :
    (b : Bool) (property : ℕ) (period : Period) (t : Tables)
    → (deductions : Decimal) × Yields {E = SplitError}
        (if b then select (maintenance_total property period) else pure (cents (pos 0)))
        t
        (ok deductions)
        t
fetch_branch-Yields true property period t =
    (maintenance_total property period t, select-Yields _ t)
fetch_branch-Yields false property period t = (cents (pos 0), pure-Yields _ t)

pub fetch-Yields :
    (property : ℕ) (period : Period) (t : Tables)
    → (deductions : Decimal) × Yields
        (fetch_maintenance_deductions property period)
        t
        (ok deductions)
        t
unfolding fetch_maintenance_deductions
fetch-Yields property period t =
    let (deductions, y) = fetch_branch-Yields t.has_estimated_cost property period t in
    (deductions, >>=-Yields _ (select-Yields _ t) y)

-- the decimals of the parts: those of the currency, whose code `Money.of` and the parts normalise
abbrev pub part_scale : ExecuteSplitParams → ℕ
part_scale p = get_currency_scale (normalize_currency (of p.total_amount p.currency).currency)

module _ ⦃dec : DecimalLib⦄ where
  -- the payment in hundredths, where its currency has at most two decimals
  abbrev pub payment_cents : ExecuteSplitParams → ℤ
  payment_cents p = to_minor_units (of p.total_amount p.currency) *ℤ pos (10 ^ (2 - part_scale p))
