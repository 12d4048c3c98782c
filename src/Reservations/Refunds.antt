-- ===== src/Reservations/Refunds.antt =====
-- src/reservations/reservation-refund.service.ts: refunds of the approved payments of a reservation,
-- within the transaction of the caller.
pub mod Totals
use gestion_alquileres_backe.Prelude.Int.{leb_ℤ, pos}
use gestion_alquileres_backe.Transaction.{Action, pure, ◌>>=◌, ◌>>◌, update, select}
use gestion_alquileres_backe.Reservations.Tables.{
  Bookings, RefundCause, mark_refunded, Payment, ReservationError, reservation_cancellation,
  approved_payments,
}
use gestion_alquileres_backe.Money.Numeral.{
  Decimal, to_places, round2, percent_of, cents, min_of, whole, minus, plus,
}
use gestion_alquileres_backe.Money.Decimal.{DecimalLib}
use gestion_alquileres_backe.Prelude.{ℕ, ◌++◌, map, List, ◌∷◌, [], if◌then◌else◌, ◌==◌}

-- the row of payment_refunds and the payment's new status
unfoldable pub insert_refund : ℕ → Decimal → RefundCause → ℕ → Bookings → Bookings
insert_refund payment amount reason processed_by t = record t {
  payment_refunds =
      t.payment_refunds
      ++ (record {
        payment_id = payment;
        amount = amount.units;
        reason = reason;
        processed_by = processed_by;
      }
          ∷ []);
}

unfoldable pub refund_payment_row : ℕ → Bookings → Bookings
refund_payment_row payment t = record t { payments = map (mark_refunded payment) t.payments }

module _ ⦃dec : DecimalLib⦄ where
  -- the loop of `refundApprovedPayments`
  unfoldable pub refund_share :
      ℕ → ℕ → Decimal → List Payment → Action Bookings ReservationError Decimal
  refund_share percentage processed_by total [] = pure total
  refund_share percentage processed_by total (p ∷ ps) =
      let amount = to_places (percent_of (cents p.amount) (whole (pos percentage))) 2 in
      if leb_ℤ amount.units (pos 0) then refund_share percentage processed_by total ps else (do
        update (insert_refund p.id amount reservation_cancellation processed_by)
        update (refund_payment_row p.id)
        refund_share percentage processed_by (plus total amount) ps)

  -- `refundApprovedPayments`
  unfoldable pub refund_approved_payments : ℕ → ℕ → ℕ → Action Bookings ReservationError Decimal
  refund_approved_payments id percentage processed_by =
      if percentage == 0 then pure (cents (pos 0)) else (do
        payments ← select (λ t. approved_payments id t.payments)
        total ← refund_share percentage processed_by (cents (pos 0)) payments
        pure (round2 total))

  -- the loop of `refundAbsoluteAmount`
  unfoldable pub refund_remaining :
      RefundCause → ℕ → Decimal → Decimal → List Payment → Action Bookings ReservationError Decimal
  refund_remaining reason processed_by remaining total [] = pure total
  refund_remaining reason processed_by remaining total (p ∷ ps) =
      let amount = round2 (min_of remaining (cents p.amount)) in
      if leb_ℤ remaining.units (pos 0)
      then pure total
      else if leb_ℤ amount.units (pos 0)
      then refund_remaining reason processed_by remaining total ps
      else (do
        update (insert_refund p.id amount reason processed_by)
        update (refund_payment_row p.id)
        refund_remaining reason processed_by (round2 (minus remaining amount)) (plus total amount)
            ps)

  -- `refundAbsoluteAmount`; the rows come by id, which is the order of the table here
  unfoldable pub refund_absolute_amount :
      ℕ → Decimal → ℕ → RefundCause → Action Bookings ReservationError Decimal
  refund_absolute_amount id amount processed_by reason =
      if leb_ℤ amount.units (pos 0) then pure (cents (pos 0)) else (do
        payments ← select (λ t. approved_payments id t.payments)
        total ← refund_remaining reason processed_by (round2 amount) (cents (pos 0)) payments
        pure (round2 total))
