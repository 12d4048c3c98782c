-- ===== src/Reservations/Pricing/TotalDue.antt =====
-- The lines that the guest sees add up to what the guest pays.
use gestion_alquileres_backe.Reservations.Pricing.Signs.{
  weekend_line-InCents, lead_time_line-InCents, length_of_stay_discount-InCents,
  weekend_line-counted, lead_time_line-counted, length_of_stay_discount-counted, tax_line-InCents,
}
use gestion_alquileres_backe.Prelude.Int.{
  int_laws, sum_ℤ, pos, ◌≤ℤ◌, ◌+ℤ◌, int_laws, eq_of_parts, pos_part, neg_part,
}
use gestion_alquileres_backe.Prelude.{refl, List, ◌∷◌, ◌≡◌, [], arith, filter_by, ap, ◌∙◌}
use gestion_alquileres_backe.Reservations.Pricing.Breakdown.{
  InCents, AllInCents, All-push, units_of, sum_counted, units-push, counted-push, count_of,
  split_counted, is_charged_adjustment, cents_of, sum_lines-cents,
}
use gestion_alquileres_backe.Reservations.Pricing.Total.{accommodation_lines, price_reservation}
use gestion_alquileres_backe.Reservations.Pricing.{
  PricingInput, amount_of, push, PriceLine, sum_lines, or_zero, is_discount,
}
use gestion_alquileres_backe.Money.Numeral.{
  Decimal, to_places, round2, plus, cents, round2-cents, plus-cents,
}
use gestion_alquileres_backe.Reservations.Pricing.Lines.{
  base_amount_of, nightly_line, lead_time_line, weekend_line, length_of_stay_discount,
  cleaning_line, deposit_line, tax_line,
}
use gestion_alquileres_backe.Money.Decimal.{DecimalLib}

module _ ⦃dec : DecimalLib⦄ where
  base_amount_of-InCents :
      (input : PricingInput) (prices : List Decimal) → InCents (base_amount_of input prices)
  unfolding base_amount_of to_places
  base_amount_of-InCents input [] = refl
  base_amount_of-InCents input (p ∷ ps) = refl

  -- the amount that the lead time and the length of stay apply to
  abbrev pub after_weekend_of : PricingInput → Decimal
  after_weekend_of input =
      round2 (plus (base_amount_of input input.nightly_prices) (amount_of (weekend_line input)))

  accommodation-InCents : (input : PricingInput) → AllInCents (accommodation_lines input)
  unfolding accommodation_lines nightly_line
  accommodation-InCents input =
      let base = base_amount_of input input.nightly_prices in
      let after = after_weekend_of input in
      let lead = lead_time_line input after in
      let adjusted = round2 (plus after (amount_of lead)) in
      let first =
        All-push (weekend_line input) (nightly_line input base ∷ [])
          (base_amount_of-InCents input input.nightly_prices, tt) (weekend_line-InCents input) in
      let second =
        All-push lead (push (weekend_line input) (nightly_line input base ∷ [])) first
          (lead_time_line-InCents input after) in
      All-push (length_of_stay_discount input.nights adjusted input)
        (push lead (push (weekend_line input) (nightly_line input base ∷ []))) second
        (length_of_stay_discount-InCents input.nights adjusted input)

  -- The lines of the accommodation are the nights and the lines that the filters count.
  accommodation-counted :
      (input : PricingInput)
      → pos 0 ≤ℤ (after_weekend_of input).units
      → sum_ℤ (units_of (accommodation_lines input))
        ≡ (base_amount_of input input.nightly_prices).units
          +ℤ sum_counted (accommodation_lines input)
  unfolding accommodation_lines nightly_line sum_ℤ
  accommodation-counted input h =
      let base = base_amount_of input input.nightly_prices in
      let after = after_weekend_of input in
      let lead = lead_time_line input after in
      let adjusted = round2 (plus after (amount_of lead)) in
      let stay = length_of_stay_discount input.nights adjusted input in
      let one = nightly_line input base ∷ [] in
      let two = push (weekend_line input) one in
      rw
        (
          units-push stay (push lead two),
          units-push lead two,
          units-push (weekend_line input) one,
          counted-push stay (push lead two),
          counted-push lead two,
          counted-push (weekend_line input) one,
          weekend_line-counted input,
          lead_time_line-counted input after h,
          length_of_stay_discount-counted input.nights adjusted input,
        )
        (omega int_laws)

  cleaning_line-units :
      (input : PricingInput)
      → pos 0 ≤ℤ input.cleaning_fee.units
      → (amount_of (cleaning_line input)).units ≡ input.cleaning_fee.units
  unfolding cleaning_line
  cleaning_line-units input h = ground (arith, eq_of_parts (pos 0) input.cleaning_fee.units)

  cleaning_line-InCents :
      (input : PricingInput)
      → InCents input.cleaning_fee
      → InCents (amount_of (cleaning_line input))
  unfolding cleaning_line
  cleaning_line-InCents input h = ground arith

  cleaning_line-count : (input : PricingInput) → count_of (cleaning_line input) ≡ pos 0
  unfolding cleaning_line
  cleaning_line-count input = ground arith

  deposit_line-units :
      (d : Decimal) → pos 0 ≤ℤ d.units → (amount_of (deposit_line d)).units ≡ d.units
  unfolding deposit_line
  deposit_line-units d h = ground (arith, eq_of_parts (pos 0) d.units)

  -- `price_reservation` over the parts of the price
  abbrev net_of : Decimal → List PriceLine → Decimal
  net_of base lines =
      round2
        (plus (plus base (sum_lines is_charged_adjustment lines)) (sum_lines is_discount lines))

  net-units :
      (base : Decimal) (lines : List PriceLine)
      → InCents base
      → AllInCents lines
      → net_of base lines ≡ cents (base.units +ℤ sum_counted lines)
  net-units base lines b h =
      let s = split_counted lines in
      rw
        (
          cents_of base b,
          sum_lines-cents is_charged_adjustment lines h,
          sum_lines-cents is_discount lines h,
          plus-cents base.units (sum_ℤ (units_of (filter_by is_charged_adjustment lines))),
          plus-cents (base.units +ℤ sum_ℤ (units_of (filter_by is_charged_adjustment lines)))
              (sum_ℤ (units_of (filter_by is_discount lines))),
          round2-cents (
              base.units
              +ℤ sum_ℤ (units_of (filter_by is_charged_adjustment lines))
              +ℤ sum_ℤ (units_of (filter_by is_discount lines))),
        )
        (ap cents (omega (int_laws, ap pos_part s, ap neg_part s)))

  round2-InCents : (d : Decimal) → InCents (round2 d)
  unfolding to_places
  round2-InCents d = refl

  due-units :
      (net fee tax deposit : Decimal)
      → InCents net
      → InCents fee
      → InCents tax
      → InCents deposit
      → (round2 (plus (round2 (plus (plus net fee) tax)) deposit)).units
        ≡ net.units +ℤ fee.units +ℤ tax.units +ℤ deposit.units
  due-units net fee tax deposit h k l m = rw (
    cents_of net h,
    cents_of fee k,
    cents_of tax l,
    cents_of deposit m,
    plus-cents net.units fee.units,
    plus-cents (net.units +ℤ fee.units) tax.units,
    round2-cents (net.units +ℤ fee.units +ℤ tax.units),
    plus-cents (net.units +ℤ fee.units +ℤ tax.units) deposit.units,
    round2-cents (net.units +ℤ fee.units +ℤ tax.units +ℤ deposit.units),
  )

  -- The amount due is the sum of the amounts of all lines, when the cleaning fee is an amount in
  -- cents that is not negative, and neither the nights with the weekend adjustment nor the deposit
  -- are negative.
  pub price_reservation-adds_up :
      (input : PricingInput)
      → InCents input.cleaning_fee
      → pos 0 ≤ℤ input.cleaning_fee.units
      → pos 0 ≤ℤ (after_weekend_of input).units
      → pos 0 ≤ℤ (round2 (or_zero input.security_deposit)).units
      → (price_reservation input).total_due.units ≡ sum_ℤ (units_of (price_reservation input).lines)
  unfolding price_reservation
  price_reservation-adds_up input c p a d =
      let base = base_amount_of input input.nightly_prices in
      let stay = accommodation_lines input in
      let cleaning = cleaning_line input in
      let lines = push cleaning stay in
      let net = net_of base lines in
      let tax = tax_line input net in
      let deposit = round2 (or_zero input.security_deposit) in
      let b = base_amount_of-InCents input input.nightly_prices in
      let r =
        All-push cleaning stay (accommodation-InCents input) (cleaning_line-InCents input c) in
      let n : net.units ≡ base.units +ℤ sum_counted lines =
        ap (λ x. x.units) (net-units base lines b r) in
      let t =
        due-units net input.cleaning_fee (amount_of tax) deposit (round2-InCents _) c
          (tax_line-InCents input net) (round2-InCents _) in
      t
      ∙ rw
          (
            units-push (deposit_line deposit) (push tax lines),
            units-push tax lines,
            units-push cleaning stay,
            n,
            counted-push cleaning stay,
            cleaning_line-count input,
            cleaning_line-units input p,
            deposit_line-units deposit d,
            accommodation-counted input a,
          )
          (omega int_laws)
