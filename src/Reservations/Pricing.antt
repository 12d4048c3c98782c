-- ===== src/Reservations/Pricing.antt =====
-- src/reservations/reservation-pricing.ts: the price of a stay as a list of lines and its totals.
-- A night is given by its day number since 1970-01-01, a Thursday; percentages are decimals.
pub mod Lines
pub mod Total
pub mod Breakdown
pub mod Signs
pub mod TotalDue
use gestion_alquileres_backe.Prelude.{
  ℕ, ◌+◌, ◌%◌, Bool, false, not, ◌&&◌, ◌||◌, List, [], ◌∷◌, ◌++◌, Option, none, some, ◌==◌, leb,
  if◌then◌else◌, length, true, map, filter_by, ◌^◌, ◌*◌,
}
use gestion_alquileres_backe.Prelude.Int.{ℤ, pos, neg, is_zero, ltb_ℤ, leb_ℤ}
use gestion_alquileres_backe.Money.Decimal.{DecimalLib, round_div}
use gestion_alquileres_backe.Money.Numeral.{
  Decimal, cents, plus, percent_of, to_places, times, whole, round2, scaled,
}

pub data PriceLineType : Type 0 where
  charge discount : PriceLineType

pub data PriceConcept : Type 0 where
  nightly cleaning_fee_line weekly_discount monthly_discount weekend_adjustment : PriceConcept
  early_bird_discount last_minute_adjustment occupancy_tax security_deposit_line : PriceConcept

-- `detail` is what the client shows beside the amount
pub record PriceLine : Type 0 where
  pub concept : PriceConcept
  pub type : PriceLineType
  pub amount : Decimal
  pub detail : List Decimal

pub record PricingInput : Type 0 where
  pub price_per_night : Decimal
  pub nights : ℕ
  pub cleaning_fee : Decimal
  pub weekly_discount_pct : Decimal
  pub monthly_discount_pct : Decimal
  pub occupancy_tax_pct : Decimal
  pub security_deposit : Option Decimal
  pub nightly_prices : List Decimal
  pub nightly_dates : Option (List ℕ)
  pub weekend_adjustment_pct : Option Decimal
  pub lead_time_days : Option ℤ
  pub early_bird_min_days : Option ℤ
  pub early_bird_discount_pct : Option Decimal
  pub last_minute_max_days : Option ℤ
  pub last_minute_adjustment_pct : Option Decimal

pub record PricingResult : Type 0 where
  pub lines : List PriceLine
  pub base_amount : Decimal
  pub discount_total : Decimal
  pub tax_total : Decimal
  pub subtotal : Decimal
  pub total : Decimal
  pub deposit : Decimal
  pub total_due : Decimal

abbrev pub weekly_threshold_nights : ℕ
weekly_threshold_nights = 7

abbrev pub monthly_threshold_nights : ℕ
monthly_threshold_nights = 28

-- tests of a decimal against zero
abbrev pub is_zero_dec : Decimal → Bool
is_zero_dec d = is_zero d.units

abbrev pub is_positive_dec : Decimal → Bool
is_positive_dec d = ltb_ℤ (pos 0) d.units

abbrev pub is_negative_dec : Decimal → Bool
is_negative_dec d = ltb_ℤ d.units (pos 0)

abbrev pub negate : Decimal → Decimal
negate d = record d { units = neg d.units }

abbrev pub abs_dec : Decimal → Decimal
abs_dec d = if is_negative_dec d then negate d else d

-- `value ?? 0`
abbrev pub or_zero : Option Decimal → Decimal
or_zero none = cents (pos 0)
or_zero (some d) = d

-- `line?.amount ?? 0`
abbrev pub amount_of : Option PriceLine → Decimal
amount_of none = cents (pos 0)
amount_of (some line) = line.amount

-- `if (line) lines.push(line)`
abbrev pub push : Option PriceLine → List PriceLine → List PriceLine
push none lines = lines
push (some line) lines = lines ++ (line ∷ [])

-- `xs.reduce((sum, x) => sum + x, acc)`
unfoldable pub sum_from : Decimal → List Decimal → Decimal
sum_from acc [] = acc
sum_from acc (x ∷ xs) = sum_from (plus acc x) xs

abbrev pub is_discount : PriceLine → Bool
is_discount line = elim line.type [ charge ↦ false | discount ↦ true ]

abbrev pub is_adjustment : PriceConcept → Bool
is_adjustment weekend_adjustment = true
is_adjustment last_minute_adjustment = true
is_adjustment _ = false

-- `lines.filter(test).reduce((sum, line) => sum + line.amount, 0)`
unfoldable pub sum_lines : (PriceLine → Bool) → List PriceLine → Decimal
unfolding sum_from
sum_lines test lines = sum_from (cents (pos 0)) (map (λ line. line.amount) (filter_by test lines))
