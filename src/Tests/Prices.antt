-- ===== src/Tests/Prices.antt =====
-- A run of src/reservations/reservation-pricing.ts: eight nights from a Thursday, booked 40 days ahead.
use gestion_alquileres_backe.Reservations.Pricing.Lines.{base_amount_of, weekend_line, weekend_for}
use gestion_alquileres_backe.Reservations.Pricing.Breakdown.{units_of}
use gestion_alquileres_backe.Reservations.Pricing.TotalDue.{
  after_weekend_of, price_reservation-adds_up,
}
use gestion_alquileres_backe.Prelude.{some, ◌≡◌, [], none, arith, refl}
use gestion_alquileres_backe.Money.Decimal.{exact_decimals, round_div}
use gestion_alquileres_backe.Money.Numeral.{cents, to_places, times, round2, plus}
use gestion_alquileres_backe.Reservations.Pricing.Total.{price_reservation}
use gestion_alquileres_backe.Prelude.Int.{◌+ℤ◌, pos, ◌≤ℤ◌, sum_ℤ, ◌*ℤ◌}
use gestion_alquileres_backe.Reservations.Pricing.{PricingInput}

abbrev stay : PricingInput
stay = record {
  price_per_night = cents (pos 10000);
  nights = 8;
  cleaning_fee = cents (pos 2550);
  weekly_discount_pct = cents (pos 1000);
  monthly_discount_pct = cents (pos 0);
  occupancy_tax_pct = cents (pos 1300);
  security_deposit = some (cents (pos 20000));
  nightly_prices = [];
  nightly_dates = none;
  weekend_adjustment_pct = none;
  lead_time_days = some (pos 40);
  early_bird_min_days = some (pos 30);
  early_bird_discount_pct = some (cents (pos 500));
  last_minute_max_days = none;
  last_minute_adjustment_pct = none;
}

after_weekend_stay : pos 0 ≤ℤ (after_weekend_of ⦃dec = exact_decimals⦄ stay).units
unfolding base_amount_of to_places times weekend_line weekend_for plus round_div ◌*ℤ◌ ◌+ℤ◌
after_weekend_stay = omega arith

deposit_stay : pos 0 ≤ℤ (round2 ⦃dec = exact_decimals⦄ (cents (pos 20000))).units
unfolding to_places round_div ◌*ℤ◌
deposit_stay = omega arith

price_reservation-adds_up_example :
    (price_reservation ⦃dec = exact_decimals⦄ stay).total_due.units
    ≡ sum_ℤ (units_of (price_reservation ⦃dec = exact_decimals⦄ stay).lines)
price_reservation-adds_up_example =
    price_reservation-adds_up ⦃dec = exact_decimals⦄ stay refl (omega arith) after_weekend_stay
      deposit_stay
