-- ===== src/Money/Percent.antt =====
-- A percentage of an amount in cents, rounded to cents: never more than the amount for a rate of at
-- most 100 %, the whole of it at 100 %, nothing at 0 %, and growing with the amount.
use gestion_alquileres_backe.Prelude.{ℕ, ◌*◌, ◌≤◌, ◌≡◌, arith}
use gestion_alquileres_backe.Prelude.Int.{pos, mul_pos}
use gestion_alquileres_backe.Money.Decimal.{DecimalLib, round_div, half_up_exact, half_up_mono}
use gestion_alquileres_backe.Money.Numeral.{cents, percent_of, round2, to_places}

module _ ⦃dec : DecimalLib⦄ where
  -- base * pct / 100, to cents; the base in cents, the rate in hundredths of a percent
  unfoldable pub percent_cents : ℕ → ℕ → ℕ
  percent_cents base rate = dec.half_up (base * rate * 100) 1000000

  pub round2-percent_of :
      (base rate : ℕ)
      → round2 (percent_of (cents (pos base)) (cents (pos rate)))
        ≡ cents (pos (percent_cents base rate))
  unfolding to_places percent_of percent_cents round_div
  round2-percent_of base rate = rw (mul_pos base rate, mul_pos (base * rate) 100)

  pub percent_cents_le : (base rate : ℕ) → rate ≤ 10000 → percent_cents base rate ≤ base
  unfolding percent_cents
  percent_cents_le base rate h =
      let n : base * rate * 100 ≤ 1000000 * base = grind arith in
      let e = half_up_exact base 1000000 (omega arith) in
      let m = half_up_mono (base * rate * 100) (1000000 * base) 1000000 (omega arith) n in
      omega (arith, e, m)

  pub percent_cents_full : (base : ℕ) → percent_cents base 10000 ≡ base
  unfolding percent_cents
  percent_cents_full base =
      let n : base * 10000 * 100 ≡ 1000000 * base = omega arith in
      rw (n, percent_cents) (half_up_exact base 1000000 (omega arith))

  pub percent_cents_zero : (base : ℕ) → percent_cents base 0 ≡ 0
  unfolding percent_cents
  percent_cents_zero base =
      let n : base * 0 * 100 ≡ 1000000 * 0 = omega arith in
      rw (n, percent_cents) (half_up_exact 0 1000000 (omega arith))

  pub percent_cents_mono : (a b rate : ℕ) → a ≤ b → percent_cents a rate ≤ percent_cents b rate
  unfolding percent_cents
  percent_cents_mono a b rate h =
      let n : a * rate * 100 ≤ b * rate * 100 = grind arith in
      half_up_mono (a * rate * 100) (b * rate * 100) 1000000 (omega arith) n
