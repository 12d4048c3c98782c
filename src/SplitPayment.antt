-- ===== src/SplitPayment.antt =====
-- src/split-payment/split-payment.service.ts: an approved payment of rent is divided among the
-- owners of the property, and each part is added to the owner's statement of the month. The tables
-- of a tenant's schema that the service reads and writes are the fields of `Tables`.
pub mod Execute
pub mod Calculation
pub mod Rows
pub mod Conservation
pub mod Statements
pub mod Atomicity
use gestion_alquileres_backe.Prelude.{
  ℕ, ◌+◌, Bool, not, List, [], ◌∷◌, map, Option, none, some, ◌==◌, ◌&&◌, Result, ok, err, filter_by,
  if◌then◌else◌, throw_if,
}
use gestion_alquileres_backe.Prelude.Int.{ℤ, pos, sum_ℤ, ltb_ℤ, ◌-ℤ◌, is_zero}
use gestion_alquileres_backe.Money.Decimal.{DecimalLib}
use gestion_alquileres_backe.Money.Numeral.{Decimal, cents, whole, minus, percent_of, to_places}
use gestion_alquileres_backe.Money.Currency.{Code, code_eq, codes}
use gestion_alquileres_backe.Money.Allocate.{AllocateError}
use gestion_alquileres_backe.Transaction.{Action, pure, select, ◌>>=◌}

pub record SplitCalculation : Type 0 where
  pub gross_rent : Decimal
  pub commission_amount : Decimal
  pub maintenance_deductions : Decimal
  pub net_amount : Decimal

-- property_owners joined with rental_owners; the percentage is an INTEGER column
pub record OwnerRow : Type 0 where
  pub property_id : ℕ
  pub rental_owner_id : ℕ
  pub owner_name : Code
  pub ownership_percentage : ℤ

pub record MaintenanceRow : Type 0 where
  pub property_id : ℕ
  pub is_completed : Bool
  pub updated_month : ℕ
  pub updated_year : ℕ
  pub estimated_cost : Option ℤ

pub record PaymentSplit : Type 0 where
  pub payment_id : ℕ
  pub rental_owner_id : ℕ
  pub owner_name : Code
  pub ownership_pct : ℤ
  pub amount : Decimal

pub record OwnerStatement : Type 0 where
  pub id : ℕ
  pub rental_owner_id : ℕ
  pub property_id : ℕ
  pub unit_id : Option ℕ
  pub period_month : ℕ
  pub period_year : ℕ
  pub gross_rent : Decimal
  pub management_commission : Decimal
  pub maintenance_deduction : Decimal
  pub net_amount : Decimal
  pub currency : Code
  pub payment_count : ℕ

pub record Tables : Type 0 where
  pub tenant_config : List (Option Decimal)
  pub has_estimated_cost : Bool
  pub maintenance_requests : List MaintenanceRow
  pub property_owners : List OwnerRow
  pub payment_splits : List PaymentSplit
  pub owner_statements : List OwnerStatement
  pub next_statement_id : ℕ

pub record ExecuteSplitParams : Type 0 where
  pub payment_id : ℕ
  pub total_amount : Decimal
  pub property_id : ℕ
  pub payment_month : ℕ  -- `getMonth`, 0 to 11
  pub payment_year : ℕ
  pub currency : Code
  pub unit_id : Option ℕ

pub data SplitError : Type 0 where
  not_approved bad_ownership_total no_result : SplitError
  allocation : AllocateError → SplitError

pub record Period : Type 0 where
  pub month : ℕ
  pub year : ℕ

module _ ⦃dec : DecimalLib⦄ where
  -- `calculateSplit`
  unfoldable pub calculate_split : Decimal → Decimal → Decimal → SplitCalculation
  calculate_split gross rate maintenance =
      let commission = to_places (percent_of gross rate) 2 in
      record {
        gross_rent = gross;
        commission_amount = commission;
        maintenance_deductions = maintenance;
        net_amount = to_places (minus (minus gross commission) maintenance) 2;
      }

-- `extractPeriod`
unfoldable pub extract_period : ExecuteSplitParams → Period
extract_period p = record { month = p.payment_month + 1; year = p.payment_year }

-- `validatePaymentStatus`
unfoldable pub validate_payment_status : Code → Result SplitError (Unit {0})
validate_payment_status status = throw_if (not (code_eq status (codes "APPROVED"))) not_approved

-- `configRows.length > 0 ? Number(configRows[0].commission_percentage ?? 0) : 0`
unfoldable pub commission_percentage : List (Option Decimal) → Decimal
commission_percentage [] = whole (pos 0)
commission_percentage (none ∷ rest) = whole (pos 0)
commission_percentage (some rate ∷ rest) = rate

-- `COALESCE(SUM(estimated_cost), 0)` over the completed requests of the property and the month
cost_of : ℕ → Period → MaintenanceRow → ℤ
cost_of property period row =
    if row.property_id == property
      && row.is_completed
      && row.updated_month == period.month
      && row.updated_year == period.year
    then (elim row.estimated_cost [ none ↦ pos 0 | some cost ↦ cost ])
    else pos 0

unfoldable pub maintenance_total : ℕ → Period → Tables → Decimal
unfolding cost_of
maintenance_total property period t =
    cents (sum_ℤ (map (cost_of property period) t.maintenance_requests))

unfoldable pub fetch_maintenance_deductions : ℕ → Period → Action Tables SplitError Decimal
unfolding maintenance_total
fetch_maintenance_deductions property period = do
  exists ← select (λ t. t.has_estimated_cost)
  if exists then select (maintenance_total property period) else pure (cents (pos 0))

-- the owners with a share: `WHERE property_id = $1 AND ownership_percentage > 0`
unfoldable pub owners_of : ℕ → Tables → List OwnerRow
owners_of property t =
    filter_by (λ o. o.property_id == property && ltb_ℤ (pos 0) o.ownership_percentage)
      t.property_owners

-- `Math.abs(totalOwnership - 100) > 0.01`, for whole percentages
unfoldable pub is_off_balance : List OwnerRow → Bool
is_off_balance owners = not (is_zero (sum_ℤ (map (λ o. o.ownership_percentage) owners) -ℤ pos 100))
