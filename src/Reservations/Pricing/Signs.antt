-- ===== src/Reservations/Pricing/Signs.antt =====
-- Each line that `priceReservation` adds is in cents, and counts towards the net amount of the
-- accommodation as the filters of its totals see it.
use gestion_alquileres_backe.Prelude.Int.{
  pos, ◌≤ℤ◌, pos_part, ◌*ℤ◌, eq_of_parts, ℤ, neg, ltb_ℤ, mul_pos_parts, negsuc, ltb_ℤ→lt,
}
use native.Mathlib.Nat.{pow-le-pow_right, zero-mul}
use gestion_alquileres_backe.Prelude.{
  refl, zero, ℕ, ◌≡◌, arith, true, List, Option, ◌^◌, some, ◌+◌, ◌<◌, Bool-cases, none, inl, ◌∙◌,
  inr, suc, ap, ◌*◌,
}
use gestion_alquileres_backe.Reservations.Pricing.Breakdown.{InCents, count_of}
use gestion_alquileres_backe.Reservations.Pricing.{
  PriceConcept, PricingInput, is_adjustment, amount_of, is_positive_dec, early_bird_discount,
  negate, or_zero, weekend_adjustment, last_minute_adjustment,
}
use gestion_alquileres_backe.Money.Numeral.{to_places, Decimal, percent_of, times, cents}
use gestion_alquileres_backe.Reservations.Pricing.Lines.{
  percentage_line, weekend_line, lead_time_line, length_of_stay_discount, tax_line, pct_of,
  weekend_for, lead_time_for, discount_line, weekend_base,
}
use gestion_alquileres_backe.Money.Decimal.{DecimalLib, round_div_parts, half_up-zero}

module _ ⦃dec : DecimalLib⦄ where
  percentage_line-InCents :
      (concept : PriceConcept) (base percentage : Decimal)
      → InCents (amount_of (percentage_line concept base percentage))
  unfolding percentage_line pct_of to_places
  percentage_line-InCents concept base percentage = ground arith

  weekend_for-InCents :
      (pct : Decimal) (prices : List Decimal) (dates : Option (List ℕ))
      → InCents (amount_of (weekend_for pct prices dates))
  unfolding weekend_for
  weekend_for-InCents pct prices none = refl
  weekend_for-InCents pct prices (some dates) = ground (
    arith,
    percentage_line-InCents weekend_adjustment (weekend_base (cents (pos 0)) prices dates) pct,
  )

  pub weekend_line-InCents : (input : PricingInput) → InCents (amount_of (weekend_line input))
  unfolding weekend_line
  weekend_line-InCents input =
      weekend_for-InCents (or_zero input.weekend_adjustment_pct) input.nightly_prices
        input.nightly_dates

  lead_time_for-InCents :
      (input : PricingInput) (base : Decimal) (days : Option ℤ)
      → InCents (amount_of (lead_time_for input base days))
  unfolding lead_time_for
  lead_time_for-InCents input base none = refl
  lead_time_for-InCents input base (some days) =
      let late = or_zero input.last_minute_adjustment_pct in
      let early = or_zero input.early_bird_discount_pct in
      ground (
        arith,
        percentage_line-InCents last_minute_adjustment base late,
        percentage_line-InCents early_bird_discount base (negate early),
      )

  pub lead_time_line-InCents :
      (input : PricingInput) (base : Decimal) → InCents (amount_of (lead_time_line input base))
  unfolding lead_time_line
  lead_time_line-InCents input base = lead_time_for-InCents input base input.lead_time_days

  pub length_of_stay_discount-InCents :
      (nights : ℕ) (base : Decimal) (input : PricingInput)
      → InCents (amount_of (length_of_stay_discount nights base input))
  unfolding length_of_stay_discount discount_line pct_of to_places
  length_of_stay_discount-InCents nights base input = ground arith

  pub tax_line-InCents :
      (input : PricingInput) (net : Decimal) → InCents (amount_of (tax_line input net))
  unfolding tax_line pct_of to_places
  tax_line-InCents input net = ground arith

  percentage_line-counted :
      (concept : PriceConcept) (base percentage : Decimal)
      → is_adjustment concept ≡ true
      → count_of (percentage_line concept base percentage)
        ≡ (amount_of (percentage_line concept base percentage)).units
  unfolding percentage_line
  percentage_line-counted concept base percentage h = ground arith

  weekend_for-counted :
      (pct : Decimal) (prices : List Decimal) (dates : Option (List ℕ))
      → count_of (weekend_for pct prices dates) ≡ (amount_of (weekend_for pct prices dates)).units
  unfolding weekend_for
  weekend_for-counted pct prices none = refl
  weekend_for-counted pct prices (some dates) = ground (
    arith,
    percentage_line-counted weekend_adjustment (weekend_base (cents (pos 0)) prices dates) pct refl,
  )

  pub weekend_line-counted :
      (input : PricingInput)
      → count_of (weekend_line input) ≡ (amount_of (weekend_line input)).units
  unfolding weekend_line
  weekend_line-counted input =
      weekend_for-counted (or_zero input.weekend_adjustment_pct) input.nightly_prices
        input.nightly_dates

  pub length_of_stay_discount-counted :
      (nights : ℕ) (base : Decimal) (input : PricingInput)
      → count_of (length_of_stay_discount nights base input)
        ≡ (amount_of (length_of_stay_discount nights base input)).units
  unfolding length_of_stay_discount discount_line
  length_of_stay_discount-counted nights base input = ground arith

  neg-pos : (b : ℕ) → neg (pos (suc b)) ≡ negsuc b
  unfolding neg
  neg-pos b = ground arith

  pos_part-mul : (a b : ℕ) → pos_part (pos a *ℤ negsuc b) ≡ 0
  unfolding ◌*ℤ◌
  pos_part-mul a b = ground arith

  -- A share of an amount that is not negative, at a rate below zero, is not positive.
  opposite_signs :
      (x y : ℤ) (p : ℕ) → pos 0 ≤ℤ x → ltb_ℤ (pos 0) y ≡ true → pos_part (x *ℤ neg y *ℤ pos p) ≡ 0
  opposite_signs (pos a) (pos (suc b)) p h k =
      let e = pos_part-mul a b in
      let n = ap (λ y. pos_part (pos a *ℤ y *ℤ pos p)) (neg-pos b) in
      let f = (mul_pos_parts (pos a *ℤ negsuc b) p).0 in
      n ∙ f ∙ ap (λ (t : ℕ). t * p) e ∙ zero-mul p
  opposite_signs (pos a) (pos zero) p h k = absurd (omega (arith, ltb_ℤ→lt (pos 0) (pos 0) k))
  opposite_signs (pos a) (negsuc b) p h k = absurd (omega (arith, ltb_ℤ→lt (pos 0) (negsuc b) k))
  opposite_signs (negsuc a) y p h k = absurd (omega arith)

  pct_of-negative :
      (base pct : Decimal)
      → pos 0 ≤ℤ base.units
      → is_positive_dec pct ≡ true
      → pos_part (pct_of base (negate pct)).units ≡ 0
  unfolding pct_of to_places percent_of times
  pct_of-negative base pct h k =
      let d = 10 ^ (base.places + pct.places + 2) in
      let z = opposite_signs base.units pct.units 100 h k in
      let p : 0 < d =
        pow-le-pow_right {n = 10} (omega arith) {i = 0} {j = base.places + pct.places + 2}
          (omega arith) in
      let q = round_div_parts (base.units *ℤ neg pct.units *ℤ pos 100) d p in
      q.0 ∙ rw z (half_up-zero d p)

  early_bird-counted :
      (base pct : Decimal)
      → pos 0 ≤ℤ base.units
      → is_positive_dec pct ≡ true
      → count_of (percentage_line early_bird_discount base (negate pct))
        ≡ (amount_of (percentage_line early_bird_discount base (negate pct))).units
  unfolding percentage_line
  early_bird-counted base pct h k =
      ground
        (arith, pct_of-negative base pct h k, eq_of_parts (pct_of base (negate pct)).units (pos 0))

  lead_time_for-counted :
      (input : PricingInput) (base : Decimal) (days : Option ℤ)
      → pos 0 ≤ℤ base.units
      → count_of (lead_time_for input base days) ≡ (amount_of (lead_time_for input base days)).units
  unfolding lead_time_for
  lead_time_for-counted input base none h = refl
  lead_time_for-counted input base (some days) h =
      let late = or_zero input.last_minute_adjustment_pct in
      let early = or_zero input.early_bird_discount_pct in
      elim (Bool-cases (is_positive_dec early)) [
        | inl p ↦ ground (
          arith,
          p,
          percentage_line-counted last_minute_adjustment base late refl,
          early_bird-counted base early h p,
        )
        | inr n ↦ ground (arith, n, percentage_line-counted last_minute_adjustment base late refl)
      ]

  pub lead_time_line-counted :
      (input : PricingInput) (base : Decimal)
      → pos 0 ≤ℤ base.units
      → count_of (lead_time_line input base) ≡ (amount_of (lead_time_line input base)).units
  unfolding lead_time_line
  lead_time_line-counted input base h = lead_time_for-counted input base input.lead_time_days h
