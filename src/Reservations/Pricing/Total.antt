-- ===== src/Reservations/Pricing/Total.antt =====
-- src/reservations/reservation-pricing.ts, `priceReservation`: the lines in order and the totals.
use gestion_alquileres_backe.Reservations.Pricing.Lines.{
  base_amount_of, weekend_line, cleaning_line, lead_time_line, length_of_stay_discount,
  nightly_line, tax_line, deposit_line,
}
use gestion_alquileres_backe.Reservations.Pricing.{
  PricingInput, PriceLine, PricingResult, push, amount_of, sum_lines, is_discount, is_adjustment,
  or_zero,
}
use gestion_alquileres_backe.Prelude.{not, ◌&&◌, List, [], ◌∷◌}
use gestion_alquileres_backe.Money.Decimal.{DecimalLib}
use gestion_alquileres_backe.Money.Numeral.{plus, round2}

module _ ⦃dec : DecimalLib⦄ where
  -- the lines of the accommodation: nights, weekend, lead time and length of stay
  unfoldable pub accommodation_lines : PricingInput → List PriceLine
  accommodation_lines input =
      let base = base_amount_of input input.nightly_prices in
      let weekend = weekend_line input in
      let after_weekend = round2 (plus base (amount_of weekend)) in
      let lead_time = lead_time_line input after_weekend in
      let adjusted = round2 (plus after_weekend (amount_of lead_time)) in
      push (length_of_stay_discount input.nights adjusted input)
        (push lead_time (push weekend (nightly_line input base ∷ [])))

  -- `priceReservation`
  unfoldable pub price_reservation : PricingInput → PricingResult
  price_reservation input =
      let base = base_amount_of input input.nightly_prices in
      let lines = push (cleaning_line input) (accommodation_lines input) in
      let discount_total = sum_lines is_discount lines in
      let adjustment_charges =
        sum_lines (λ line. not (is_discount line) && is_adjustment line.concept) lines in
      let net = round2 (plus (plus base adjustment_charges) discount_total) in
      let tax = tax_line input net in
      let total = round2 (plus (plus net input.cleaning_fee) (amount_of tax)) in
      let deposit = round2 (or_zero input.security_deposit) in
      record {
        lines = push (deposit_line deposit) (push tax lines);
        base_amount = base;
        discount_total = round2 discount_total;
        tax_total = amount_of tax;
        subtotal = round2 (plus (plus base adjustment_charges) input.cleaning_fee);
        total = total;
        deposit = deposit;
        total_due = round2 (plus total deposit);
      }
