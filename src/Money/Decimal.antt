-- ===== src/Money/Decimal.antt =====
-- What src/common/money/rounding.ts takes from decimal.js. The package is not part of the
-- repository, so its rounding is a parameter with the documented law of ROUND_HALF_UP: to the
-- nearest integer, and away from zero at a tie. Sums, differences and products of decimals are
-- exact below the 40 digits of `MoneyDecimal`, so they are those of the integers.
use gestion_alquileres_backe.Prelude.{ℕ, suc, ◌+◌, ◌*◌, ◌/◌, ◌%◌, ◌≤◌, ◌<◌, ◌≡◌, arith}
use gestion_alquileres_backe.Prelude.Int.{
  ℤ, pos, negsuc, neg, pos_part, ◌*ℤ◌, neg_part, mul_pos_parts, eq_of_parts,
}
use native.Mathlib.Nat.{div-add-mod, mod-lt, mul_comm}

pub record DecimalLib : Type 0 where
  -- the magnitude n / d, rounded to an integer by ROUND_HALF_UP
  pub half_up : ℕ → ℕ → ℕ
  pub half_up_le : (n d : ℕ) → 0 < d → 2 * (d * half_up n d) ≤ 2 * n + d
  pub half_up_gt : (n d : ℕ) → 0 < d → 2 * n + d < 2 * (d * half_up n d) + 2 * d

module _ ⦃dec : DecimalLib⦄ where
  -- `toDecimalPlaces(0, MONEY_ROUNDING)` of n / d: the sign is kept, a tie goes away from zero
  unfoldable pub round_div : ℤ → ℕ → ℤ
  round_div (pos n) d = pos (dec.half_up n d)
  round_div (negsuc n) d = neg (pos (dec.half_up (suc n) d))

  pub half_up_exact : (n d : ℕ) → 0 < d → dec.half_up (d * n) d ≡ n
  half_up_exact n d p = grind (arith, dec.half_up_le (d * n) d p, dec.half_up_gt (d * n) d p)

  pub half_up-zero : (d : ℕ) → 0 < d → dec.half_up 0 d ≡ 0
  half_up-zero d p = grind (arith, dec.half_up_le 0 d p)

  -- The sign and the magnitude are rounded apart.
  pub round_div_parts :
      (m : ℤ) (d : ℕ)
      → 0 < d
      → (pos_part (round_div m d) ≡ dec.half_up (pos_part m) d)
        × (neg_part (round_div m d) ≡ dec.half_up (neg_part m) d)
  unfolding round_div neg
  round_div_parts (pos n) d p = ground (arith, half_up-zero d p)
  round_div_parts (negsuc n) d p = ground (arith, half_up-zero d p)

  pub round_div_exact : (m : ℤ) (d : ℕ) → 0 < d → round_div (m *ℤ pos d) d ≡ m
  round_div_exact m d p =
      let q = round_div_parts (m *ℤ pos d) d p in
      let r = mul_pos_parts m d in
      ground (
        arith,
        eq_of_parts (round_div (m *ℤ pos d) d) m,
        half_up_exact (pos_part m) d p,
        half_up_exact (neg_part m) d p,
        mul_comm (pos_part m) d,
        mul_comm (neg_part m) d,
      )

  pub half_up_mono : (m n d : ℕ) → 0 < d → m ≤ n → dec.half_up m d ≤ dec.half_up n d
  half_up_mono m n d p h = grind (arith, dec.half_up_le m d p, dec.half_up_gt n d p)

-- The law can be met: the integer part of (2n + d) / 2d.
abbrev pub exact_half_up : ℕ → ℕ → ℕ
exact_half_up n d = (2 * n + d) / (2 * d)

pub exact_half_up_le : (n d : ℕ) → 0 < d → 2 * (d * exact_half_up n d) ≤ 2 * n + d
exact_half_up_le n d p = grind (arith, div-add-mod (2 * n + d) (2 * d))

pub exact_half_up_gt : (n d : ℕ) → 0 < d → 2 * n + d < 2 * (d * exact_half_up n d) + 2 * d
exact_half_up_gt n d p =
    let r : (2 * n + d) % (2 * d) < 2 * d = mod-lt (2 * n + d) (omega arith) in
    grind (arith, div-add-mod (2 * n + d) (2 * d))

abbrev pub exact_decimals : DecimalLib
exact_decimals = record {
  half_up = exact_half_up;
  half_up_le = exact_half_up_le;
  half_up_gt = exact_half_up_gt;
}
