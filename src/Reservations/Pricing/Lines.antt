-- ===== src/Reservations/Pricing/Lines.antt =====
-- src/reservations/reservation-pricing.ts: the lines of the price, each from the input and the amount
-- that it applies to.
use gestion_alquileres_backe.Reservations.Pricing.{
  PriceConcept, PricingInput, PriceLine, sum_from, discount, monthly_threshold_nights, is_zero_dec,
  or_zero, nightly, is_positive_dec, negate, monthly_discount, is_negative_dec, weekend_adjustment,
  last_minute_adjustment, charge, cleaning_fee_line, occupancy_tax, security_deposit_line,
  weekly_threshold_nights, abs_dec, early_bird_discount, weekly_discount,
}
use gestion_alquileres_backe.Prelude.{
  ℕ, ◌+◌, ◌%◌, Bool, false, not, ◌&&◌, ◌||◌, List, [], ◌∷◌, Option, none, some, ◌==◌, leb,
  if◌then◌else◌, length, ◌^◌, ◌*◌,
}
use gestion_alquileres_backe.Prelude.Int.{ℤ, pos, leb_ℤ}
use gestion_alquileres_backe.Money.Decimal.{DecimalLib, round_div}
use gestion_alquileres_backe.Money.Numeral.{
  Decimal, cents, plus, percent_of, to_places, times, whole, scaled,
}

module _ ⦃dec : DecimalLib⦄ where
  unfoldable pub pct_of : Decimal → Decimal → Decimal
  pct_of base pct = to_places (percent_of base pct) 2

  unfoldable pub discount_line : PriceConcept → Decimal → Decimal → PriceLine
  unfolding pct_of
  discount_line concept base percentage = record {
    concept = concept;
    type = discount;
    amount = negate (pct_of base percentage);
    detail = percentage ∷ [];
  }

  unfoldable pub length_of_stay_discount : ℕ → Decimal → PricingInput → Option PriceLine
  unfolding discount_line
  length_of_stay_discount nights base input =
      if leb monthly_threshold_nights nights && is_positive_dec input.monthly_discount_pct
      then some (discount_line monthly_discount base input.monthly_discount_pct)
      else if leb weekly_threshold_nights nights && is_positive_dec input.weekly_discount_pct
      then some (discount_line weekly_discount base input.weekly_discount_pct)
      else none

  unfoldable pub percentage_line : PriceConcept → Decimal → Decimal → Option PriceLine
  unfolding pct_of
  percentage_line concept base percentage =
      let amount = pct_of base percentage in
      if is_zero_dec percentage || is_zero_dec base
      then none
      else some (record {
        concept = concept;
        type = if is_negative_dec amount then discount else charge;
        amount = amount;
        detail = abs_dec percentage ∷ [];
      })

-- `getUTCDay()`: 5 is Friday, 6 is Saturday
abbrev pub utc_day : ℕ → ℕ
utc_day date = (date + 4) % 7

-- the prices of the nights of Friday and Saturday
unfoldable pub weekend_base : Decimal → List Decimal → List ℕ → Decimal
weekend_base sum [] dates = sum
weekend_base sum (price ∷ prices) [] = sum
weekend_base sum (price ∷ prices) (date ∷ dates) =
    weekend_base (if utc_day date == 5 || utc_day date == 6 then plus sum price else sum) prices
      dates

module _ ⦃dec : DecimalLib⦄ where
  unfoldable pub weekend_for : Decimal → List Decimal → Option (List ℕ) → Option PriceLine
  weekend_for percentage prices none = none
  weekend_for percentage prices (some dates) =
      if is_zero_dec percentage || not (length dates == length prices)
      then none
      else percentage_line weekend_adjustment (weekend_base (cents (pos 0)) prices dates) percentage

  unfoldable pub weekend_line : PricingInput → Option PriceLine
  weekend_line input =
      weekend_for (or_zero input.weekend_adjustment_pct) input.nightly_prices input.nightly_dates

  -- `bound !== undefined && test(bound)`
  abbrev pub within : (ℤ → Bool) → Option ℤ → Bool
  within test none = false
  within test (some bound) = test bound

  unfoldable pub lead_time_for : PricingInput → Decimal → Option ℤ → Option PriceLine
  lead_time_for input base none = none
  lead_time_for input base (some days) =
      if within (leb_ℤ days) input.last_minute_max_days
        && not (is_zero_dec (or_zero input.last_minute_adjustment_pct))
      then percentage_line last_minute_adjustment base (or_zero input.last_minute_adjustment_pct)
      else if within (λ bound. leb_ℤ bound days) input.early_bird_min_days
          && is_positive_dec (or_zero input.early_bird_discount_pct)
      then percentage_line early_bird_discount base (negate (or_zero input.early_bird_discount_pct))
      else none

  unfoldable pub lead_time_line : PricingInput → Decimal → Option PriceLine
  lead_time_line input base = lead_time_for input base input.lead_time_days

module _ ⦃dec : DecimalLib⦄ where
  -- the sum of the nights, or the flat rate
  unfoldable pub base_amount_of : PricingInput → List Decimal → Decimal
  unfolding sum_from
  base_amount_of input [] = to_places (times input.price_per_night (whole (pos input.nights))) 2
  base_amount_of input (price ∷ prices) = to_places (sum_from (whole (pos 0)) (price ∷ prices)) 2

  -- `new MoneyDecimal(baseAmount).div(nights).toDecimalPlaces(2)`
  unfoldable pub display_price_per_night : PricingInput → Decimal → Decimal
  display_price_per_night input base =
      if input.nights == 0
      then input.price_per_night
      else cents (round_div (scaled base 2) (10 ^ base.places * input.nights))

  unfoldable pub nightly_line : PricingInput → Decimal → PriceLine
  unfolding display_price_per_night
  nightly_line input base = record {
    concept = nightly;
    type = charge;
    amount = base;
    detail = whole (pos input.nights) ∷ display_price_per_night input base ∷ [];
  }

  unfoldable pub cleaning_line : PricingInput → Option PriceLine
  cleaning_line input =
      if is_positive_dec input.cleaning_fee
      then some (record {
        concept = cleaning_fee_line;
        type = charge;
        amount = input.cleaning_fee;
        detail = [];
      })
      else none

  unfoldable pub tax_line : PricingInput → Decimal → Option PriceLine
  unfolding pct_of
  tax_line input net =
      if is_positive_dec input.occupancy_tax_pct
      then some (record {
        concept = occupancy_tax;
        type = charge;
        amount = pct_of net input.occupancy_tax_pct;
        detail = input.occupancy_tax_pct ∷ [];
      })
      else none

  unfoldable pub deposit_line : Decimal → Option PriceLine
  deposit_line deposit =
      if is_positive_dec deposit
      then some
          (record { concept = security_deposit_line; type = charge; amount = deposit; detail = [] })
      else none
