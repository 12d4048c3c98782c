-- ===== src/Reservations/Nights/Kept.antt =====
-- Refunds and cleaning orders keep what does not look at payments, refunds and orders, whatever
-- fails on the way.
use gestion_alquileres_backe.Prelude.Int.{pos}
use mathlib.Core.Bool.{true, false}
use gestion_alquileres_backe.Reservations.Status.{ReservationAction}
use gestion_alquileres_backe.Transaction.Rules.{
  pure-Keeps, Keeps, >>=-Keeps, select-Keeps, >>-Keeps, update-Keeps,
}
use gestion_alquileres_backe.Money.Numeral.{
  Decimal, to_places, round2, percent_of, min_of, cents, whole, minus, plus,
}
use gestion_alquileres_backe.Reservations.Tables.{
  Bookings, RefundCause, ReservationError, Reservation, Payment, CleaningOrder,
  security_deposit_return, reservation_cancellation, PaymentRefund,
}
use gestion_alquileres_backe.Reservations.Admin.{
  apply_refund_for_action, create_turnover_cleaning_order, insert_cleaning_order, Current,
}
use gestion_alquileres_backe.Prelude.{Bool, ℕ, if◌then◌else◌, List, true, ◌∷◌, []}
use gestion_alquileres_backe.Reservations.Refunds.{
  insert_refund, refund_share, refund_remaining, refund_approved_payments, refund_absolute_amount,
  refund_payment_row,
}
use gestion_alquileres_backe.Transaction.{Action, update, ◌>>◌, pure}
use gestion_alquileres_backe.Money.Decimal.{DecimalLib}

-- `P` reads reservations, nights and units alone.
abbrev pub IgnoresMoney : (Bookings → Type 0) → Type 0
IgnoresMoney P =
    (t : Bookings) (rows : List PaymentRefund) (payments : List Payment)
    (orders : List CleaningOrder)
    → P t
    → P (record t { payment_refunds = rows; payments = payments; cleaning_orders = orders })

module _ ⦃dec : DecimalLib⦄ (P : Bookings → Type 0) (ignores : IgnoresMoney P) where
  abbrev Keeping : {A : Type 0} → Action Bookings ReservationError A → Type 0
  Keeping m = Keeps P m

  pub give_back-Keeps :
      {A : Type 0} (payment : ℕ) (amount : Decimal) (reason : RefundCause) (by : ℕ)
      (k : Action Bookings ReservationError A)
      → Keeping k
      → Keeping (
          update (insert_refund payment amount reason by)
          >> (update (refund_payment_row payment) >> k))
  unfolding insert_refund refund_payment_row
  give_back-Keeps payment amount reason by k h =
      >>-Keeps
        (update-Keeps (insert_refund payment amount reason by)
          (λ t h. ignores t _ t.payments t.cleaning_orders h))
        (>>-Keeps
          (update-Keeps (refund_payment_row payment)
            (λ t h. ignores t t.payment_refunds _ t.cleaning_orders h))
          h)

  pub if-Keeps :
      {A : Type 0} (b : Bool) (m k : Action Bookings ReservationError A)
      → Keeping m
      → Keeping k
      → Keeping (if b then m else k)
  if-Keeps true m k x y = x
  if-Keeps false m k x y = y

  pub refund_share-Keeps :
      (percentage by : ℕ) (total : Decimal) (ps : List Payment)
      → Keeping (refund_share percentage by total ps)
  unfolding refund_share
  refund_share-Keeps percentage by total [] = pure-Keeps total
  refund_share-Keeps percentage by total (p ∷ ps) =
      let amount = to_places (percent_of (cents p.amount) (whole (pos percentage))) 2 in
      if-Keeps _ _ _ (refund_share-Keeps percentage by total ps) (
        give_back-Keeps p.id amount reservation_cancellation by _
          (refund_share-Keeps percentage by (plus total amount) ps))

  pub refund_remaining-Keeps :
      (reason : RefundCause) (by : ℕ) (remaining total : Decimal) (ps : List Payment)
      → Keeping (refund_remaining reason by remaining total ps)
  unfolding refund_remaining
  refund_remaining-Keeps reason by remaining total [] = pure-Keeps total
  refund_remaining-Keeps reason by remaining total (p ∷ ps) =
      let amount = round2 (min_of remaining (cents p.amount)) in
      if-Keeps _ _ _ (pure-Keeps total) (
        if-Keeps _ _ _ (refund_remaining-Keeps reason by remaining total ps) (
          give_back-Keeps p.id amount reason by _ (
            refund_remaining-Keeps reason by (round2 (minus remaining amount)) (plus total amount)
              ps)))

  pub refund_approved_payments-Keeps :
      (id percentage by : ℕ) → Keeping (refund_approved_payments id percentage by)
  unfolding refund_approved_payments
  refund_approved_payments-Keeps id percentage by = if-Keeps _ _ _ (pure-Keeps _) (
      >>=-Keeps (select-Keeps _)
        (λ ps. >>=-Keeps (refund_share-Keeps percentage by _ ps) (λ total. pure-Keeps _)))

  pub refund_absolute_amount-Keeps :
      (id : ℕ) (amount : Decimal) (by : ℕ) (reason : RefundCause)
      → Keeping (refund_absolute_amount id amount by reason)
  unfolding refund_absolute_amount
  refund_absolute_amount-Keeps id amount by reason = if-Keeps _ _ _ (pure-Keeps _) (
      >>=-Keeps (select-Keeps _)
        (λ ps. >>=-Keeps (refund_remaining-Keeps reason by _ _ ps) (λ total. pure-Keeps _)))

  pub apply_refund_for_action-Keeps :
      (id : ℕ) (action : ReservationAction) (c : Current) (admin : ℕ)
      → Keeping (apply_refund_for_action id action c admin)
  unfolding apply_refund_for_action
  apply_refund_for_action-Keeps id action c admin =
      if-Keeps _ _ _ (>>-Keeps (refund_approved_payments-Keeps id 100 admin) (pure-Keeps tt)) (
        if-Keeps _ _ _
          (>>-Keeps (refund_absolute_amount-Keeps id _ admin security_deposit_return)
            (pure-Keeps tt))
          (pure-Keeps tt))

  pub create_turnover-Keeps :
      (id : ℕ) (r : Reservation) (admin : ℕ) → Keeping (create_turnover_cleaning_order id r admin)
  unfolding create_turnover_cleaning_order insert_cleaning_order
  create_turnover-Keeps id r admin = >>=-Keeps (select-Keeps _) (λ existing. when_none existing)
    where
      when_none :
          (existing : List CleaningOrder)
          → Keeping (elim existing as (λ _. Action Bookings ReservationError (Unit {0})) [
            | [] ↦ update (insert_cleaning_order id r admin)
            | o ∷ os ↦ pure tt
          ])
      when_none [] =
          update-Keeps (insert_cleaning_order id r admin)
            (λ t h. ignores t t.payment_refunds t.payments _ h)
      when_none (o ∷ os) = pure-Keeps tt
