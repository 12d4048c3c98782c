-- ===== src/Tests/Refunds.antt =====
-- A run of src/payments/payment-refunds.service.ts: a payment of 100.00 of which 30.00 were refunded.
use gestion_alquileres_backe.Money.Numeral.{cents}
use gestion_alquileres_backe.Prelude.{◌∷◌, arith, [], false}
use gestion_alquileres_backe.Money.Decimal.{exact_decimals}
use gestion_alquileres_backe.Payments.Status.{approved}
use gestion_alquileres_backe.Prelude.Int.{pos, sum_ℤ, ◌+ℤ◌}
use gestion_alquileres_backe.Payments.Refunds.Bound.{IsWithin, create_refund_keeps_bound}
use gestion_alquileres_backe.Payments.Refunds.{RefundTables, refunded_of, create_refund}

abbrev tables : RefundTables
tables = record {
  payments = record { id = 4; amount = pos 10000; status = approved } ∷ [];
  payment_refunds = record { id = 1; payment_id = 4; amount = pos 3000; processed_by = 7 } ∷ [];
  next_refund_id = 2;
  accounting_outbox = [];
}

refunded_before : IsWithin 4 tables
unfolding refunded_of sum_ℤ ◌+ℤ◌
refunded_before = omega arith

create_refund_keeps_bound_example :
    IsWithin 4
      (create_refund ⦃dec = exact_decimals⦄ 4
        (cents (pos 7000))
        7
        (record { store = tables; queries = 0; fails = λ n. false })).1.store
create_refund_keeps_bound_example =
    create_refund_keeps_bound ⦃dec = exact_decimals⦄ 4 4 (cents (pos 7000)) 7
      (record { store = tables; queries = 0; fails = λ n. false }) refunded_before
