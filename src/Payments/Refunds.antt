-- ===== src/Payments/Refunds.antt =====
-- src/payments/payment-refunds.service.ts, `createRefund`: a refund of an approved payment, whole or in
-- part, with its event for the accounting. Amounts of the tables are in cents.
use gestion_alquileres_backe.Transaction.{
  Action, throw, transaction, ◌>>=◌, ◌>>◌, throw_when, select, update, pure,
}
use gestion_alquileres_backe.Payments.Status.{PaymentStatus, refunded, payment_status_eq, approved}
use gestion_alquileres_backe.Money.Numeral.{Decimal, to_places, times, round2, whole}
use gestion_alquileres_backe.Payments.Outbox.{OutboxEvent, enqueue, payment_refund_created}
use gestion_alquileres_backe.Prelude.Int.{ℤ, sum_ℤ, pos, ◌+ℤ◌, ltb_ℤ, is_zero, ◌-ℤ◌}
use gestion_alquileres_backe.Money.Decimal.{DecimalLib}
use gestion_alquileres_backe.Prelude.{
  ℕ, List, filter_by, if◌then◌else◌, map, ◌==◌, ◌++◌, Option, ◌∷◌, [], suc, not,
}
pub mod Bound

pub record PaymentRow : Type 0 where
  pub id : ℕ
  pub amount : ℤ
  pub status : PaymentStatus

-- a row of payment_refunds
pub record RefundRow : Type 0 where
  pub id : ℕ
  pub payment_id : ℕ
  pub amount : ℤ
  pub processed_by : ℕ

pub record RefundTables : Type 0 where
  pub payments : List PaymentRow
  pub payment_refunds : List RefundRow
  pub next_refund_id : ℕ
  pub accounting_outbox : List OutboxEvent

pub data RefundError : Type 0 where
  payment_not_found not_approved exceeds_payment : RefundError

-- `SELECT id, amount, status FROM payments WHERE id = $1 FOR UPDATE`
abbrev pub rows_of : ℕ → List PaymentRow → List PaymentRow
rows_of id payments = filter_by (λ p. p.id == id) payments

abbrev pub amount_for : ℕ → RefundRow → ℤ
amount_for id row = if row.payment_id == id then row.amount else pos 0

-- `COALESCE(SUM(amount), 0) … WHERE payment_id = $1`
unfoldable pub refunded_of : ℕ → List RefundRow → ℤ
refunded_of id rows = sum_ℤ (map (amount_for id) rows)

module _ ⦃dec : DecimalLib⦄ where
  -- `toCents`
  unfoldable pub to_cents : Decimal → ℤ
  to_cents value = (to_places (times value (whole (pos 100))) 0).units

  -- the refund's row; the column rounds the amount to cents
  unfoldable pub insert_refund_row : ℕ → Decimal → ℕ → RefundTables → RefundTables
  insert_refund_row payment amount admin t = record t {
    payment_refunds =
        t.payment_refunds
        ++ (record {
          id = t.next_refund_id;
          payment_id = payment;
          amount = (round2 amount).units;
          processed_by = admin;
        }
            ∷ []);
    next_refund_id = suc t.next_refund_id;
  }

-- the event `payment.refund.created` of the refund `id`
unfoldable pub enqueue_refund : ℕ → ℕ → ℕ → RefundTables → RefundTables
enqueue_refund id payment admin t = record t {
  accounting_outbox =
      enqueue payment_refund_created id (id ∷ payment ∷ admin ∷ []) t.accounting_outbox;
}

abbrev pub mark_if : ℕ → PaymentRow → PaymentRow
mark_if id p = if p.id == id then record p { status = refunded } else p

-- `UPDATE payments SET status = 'REFUNDED' WHERE id = $2`
unfoldable pub mark_payment_refunded : ℕ → RefundTables → RefundTables
mark_payment_refunded id t = record t { payments = map (mark_if id) t.payments }

module _ ⦃dec : DecimalLib⦄ where
  -- behind `FOR UPDATE`, with the sum of the refunds that there are
  unfoldable pub refund_checked :
      ℕ → Decimal → ℕ → PaymentRow → ℤ → Action RefundTables RefundError (Unit {0})
  refund_checked id amount admin payment already = do
    let new_total = already +ℤ to_cents amount
    throw_when (ltb_ℤ payment.amount new_total) exceeds_payment
    refund_id ← select (λ t. t.next_refund_id)
    update (insert_refund_row id amount admin)
    update (enqueue_refund refund_id id admin)
    if is_zero (payment.amount -ℤ new_total) then update (mark_payment_refunded id) else pure tt

  unfoldable pub refund_found :
      ℕ → Decimal → ℕ → List PaymentRow → Action RefundTables RefundError (Unit {0})
  refund_found id amount admin [] = throw payment_not_found
  refund_found id amount admin (payment ∷ rest) = do
    throw_when (not (payment_status_eq payment.status approved)) not_approved
    already ← select (λ t. refunded_of id t.payment_refunds)
    refund_checked id amount admin payment already

  -- `createRefund`, of a tenant's schema
  unfoldable pub create_refund : ℕ → Decimal → ℕ → Action RefundTables RefundError (Unit {0})
  create_refund id amount admin =
      transaction
        (do payments ← select (λ t. rows_of id t.payments); refund_found id amount admin payments)
