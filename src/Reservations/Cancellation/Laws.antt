-- ===== src/Reservations/Cancellation/Laws.antt =====
-- Refunds of cancellations: bounded by what was paid, and never smaller for an earlier cancellation.
use gestion_alquileres_backe.Money.Numeral.{
  cents, min_of-cents, minus-cents, max_of-cents, percent_of, times, plus, to_places,
}
use gestion_alquileres_backe.Money.Decimal.{DecimalLib, round_div, half_up_mono, half_up_exact}
use gestion_alquileres_backe.Prelude.{◌≤◌, arith, ℕ, ◌*◌, ◌≡◌, min, ◌+◌, ◌-◌, ◌<◌, ◌∙◌}
use gestion_alquileres_backe.Prelude.Int.{
  ℤ, ◌≤ℤ◌, +ℤ_parts, pos, min_ℤ, max_ℤ, ◌-ℤ◌, mul_pos, add_pos,
}
use gestion_alquileres_backe.Reservations.Cancellation.{
  compute_cancellation_refund, refund_by_days, CancellationPolicy, flexible, moderate, strict,
  compute_refundable_amount, ms_per_day, non_refundable,
}

-- Who cancels earlier never gets back a smaller share, under each policy.
pub cancellation_refund_mono :
    (policy : CancellationPolicy) (checkin early late : ℤ)
    → early ≤ℤ late
    → (compute_cancellation_refund policy checkin late).refund_percentage
      ≤ (compute_cancellation_refund policy checkin early).refund_percentage
unfolding compute_cancellation_refund refund_by_days
cancellation_refund_mono flexible checkin early late h =
    ground (arith, +ℤ_parts early (pos (1 * ms_per_day)), +ℤ_parts late (pos (1 * ms_per_day)))
cancellation_refund_mono moderate checkin early late h = ground (
  arith,
  +ℤ_parts early (pos (1 * ms_per_day)),
  +ℤ_parts late (pos (1 * ms_per_day)),
  +ℤ_parts early (pos (5 * ms_per_day)),
  +ℤ_parts late (pos (5 * ms_per_day)),
)
cancellation_refund_mono strict checkin early late h =
    ground (arith, +ℤ_parts early (pos (7 * ms_per_day)), +ℤ_parts late (pos (7 * ms_per_day)))
cancellation_refund_mono non_refundable checkin early late h = omega arith

pub min_pos : (a b : ℕ) → min_ℤ (pos a) (pos b) ≡ pos (min a b)
unfolding min_ℤ
min_pos a b = ground arith

pub max_pos : (a b : ℕ) → max_ℤ (pos 0) (pos a -ℤ pos b) ≡ pos (a - b)
unfolding max_ℤ ◌-ℤ◌
max_pos a b = ground arith

module _ ⦃dec : DecimalLib⦄ where
  -- what the guest gets back, in cents
  abbrev refund_cents : ℕ → ℕ → ℕ → ℕ
  refund_cents pct paid rent =
      dec.half_up ((min paid rent * pct * 100 + (paid - rent) * 10000) * 100) 1000000

  refundable-cents :
      (pct paid rent : ℕ)
      → compute_refundable_amount pct (cents (pos paid)) (cents (pos rent))
        ≡ cents (pos (refund_cents pct paid rent))
  unfolding compute_refundable_amount percent_of times plus to_places round_div
  refundable-cents pct paid rent =
      rw
        (
          min_of-cents (pos paid) (pos rent),
          min_pos paid rent,
          minus-cents (pos paid) (pos rent),
          max_of-cents (pos 0) (pos paid -ℤ pos rent),
          max_pos paid rent,
        )
        (rw (
          mul_pos (min paid rent) pct,
          mul_pos (min paid rent * pct) 100,
          mul_pos (paid - rent) 10000,
          add_pos (min paid rent * pct * 100) ((paid - rent) * 10000),
          mul_pos (min paid rent * pct * 100 + (paid - rent) * 10000) 100,
        ))

  -- at most the part x of the payment that pays the rent, and all of it at 100 %
  refund_between :
      (x pct d : ℕ)
      → pct ≤ 100
      → let refund = dec.half_up ((x * pct * 100 + d * 10000) * 100) 1000000 in
        (d ≤ refund) × (refund ≤ x + d) × (pct ≡ 100 → refund ≡ x + d) × (pct ≡ 0 → refund ≡ d)
  refund_between x pct d h =
      let all = (x * pct * 100 + d * 10000) * 100 in
      let p : 0 < 1000000 = omega arith in
      let most : x * pct ≤ x * 100 = grind arith in
      let low = half_up_mono (1000000 * d) all 1000000 p (omega arith) in
      let high = half_up_mono all (1000000 * (x + d)) 1000000 p (omega (arith, most)) in
      let exact_low = half_up_exact d 1000000 p in
      let exact_high = half_up_exact (x + d) 1000000 p in
      (
        omega (arith, low, exact_low),
        omega (arith, high, exact_high),
        (λ e. let n : all ≡ 1000000 * (x + d) = rw e (omega arith) in rw n exact_high),
        (λ e. let n : all ≡ 1000000 * d = rw e (omega arith) in rw n exact_low),
      )

  -- For a percentage of at most 100 and amounts in cents, a cancellation gives back at least the
  -- part of the payment beyond the rent, which is the deposit, and never more than was paid; at
  -- 100 % it gives back all of it, and at 0 % the deposit alone.
  pub refundable_amount_bounds :
      (pct paid rent : ℕ)
      → pct ≤ 100
      → (refund : ℕ) × (compute_refundable_amount pct (cents (pos paid)) (cents (pos rent))
          ≡ cents (pos refund))
        × (paid - rent ≤ refund)
        × (refund ≤ paid)
        × (pct ≡ 100 → refund ≡ paid)
        × (pct ≡ 0 → refund ≡ paid - rent)
  refundable_amount_bounds pct paid rent h =
      let (low, high, full, none_left) = refund_between (min paid rent) pct (paid - rent) h in
      let whole_payment : min paid rent + (paid - rent) ≡ paid = omega arith in
      (
        refund_cents pct paid rent,
        refundable-cents pct paid rent,
        low,
        omega (arith, high, whole_payment),
        (λ e. full e ∙ whole_payment),
        none_left,
      )
