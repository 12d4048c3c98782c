-- ===== src/SplitPayment/Calculation.antt =====
-- `calculateSplit` on amounts in cents: the parts of the split add up to the rent.
use gestion_alquileres_backe.Prelude.{ℕ, ◌≤◌, ◌≡◌}
use gestion_alquileres_backe.Prelude.Int.{ℤ, pos, ◌+ℤ◌, int_laws, ◌-ℤ◌}
use gestion_alquileres_backe.Money.Decimal.{DecimalLib}
use gestion_alquileres_backe.Money.Numeral.{cents, round2-cents, minus-cents}
use gestion_alquileres_backe.Money.Percent.{percent_cents, round2-percent_of, percent_cents_le}
use gestion_alquileres_backe.SplitPayment.{calculate_split}

-- A split loses no cent and creates none: for a rent and a deduction in cents and a commission rate
-- of at most 100 %, the commission lies between zero and the rent, and commission, deduction and net
-- amount add up to the rent exactly. (The net amount is negative when the deductions exceed it.)
pub calculate_split_adds_up :
    ⦃dec : DecimalLib⦄ (gross rate maintenance : ℕ)
    → rate ≤ 10000
    → let split =
        calculate_split (cents (pos gross)) (cents (pos rate)) (cents (pos maintenance)) in
      (commission : ℕ) × (net : ℤ) × (split.commission_amount ≡ cents (pos commission))
      × (split.net_amount ≡ cents net)
      × (commission ≤ gross)
      × (pos commission +ℤ pos maintenance +ℤ net ≡ pos gross)
unfolding calculate_split
calculate_split_adds_up gross rate maintenance h =
    let commission = percent_cents gross rate in
    let e = round2-percent_of gross rate in
    (
      commission,
      pos gross -ℤ pos commission -ℤ pos maintenance,
      e,
      rw
          (
            e,
            minus-cents (pos gross) (pos commission),
            minus-cents (pos gross -ℤ pos commission) (pos maintenance),
          )
          (round2-cents _),
      percent_cents_le gross rate h,
      omega int_laws,
    )
