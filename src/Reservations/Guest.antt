-- ===== src/Reservations/Guest.antt =====
-- src/reservations/reservations.service.ts: a guest previews and makes the cancellation of a stay.
pub mod Preview
use gestion_alquileres_backe.Reservations.Refunds.{refund_absolute_amount}
use gestion_alquileres_backe.Reservations.Admin.{
  release_nights, set_reservation_status, release_nights,
}
use mathlib.Core.Option.{none}
use gestion_alquileres_backe.Transaction.{
  Action, throw, transaction, ◌>>=◌, select, ◌>>◌, throw_when, update,
}
use gestion_alquileres_backe.Money.Numeral.{Decimal, cents, minus}
use gestion_alquileres_backe.Prelude.Int.{ℤ}
use gestion_alquileres_backe.Reservations.Cancellation.{
  CancellationPolicy, moderate, compute_cancellation_refund, compute_refundable_amount,
}
use gestion_alquileres_backe.Reservations.Status.{
  pending, ReservationStatus, pending_payment, confirmed, includes, cancelled,
}
use gestion_alquileres_backe.Money.Decimal.{DecimalLib}
use gestion_alquileres_backe.Reservations.Tables.{
  Reservation, Bookings, approved_paid, ReservationError, not_found, conflict,
  reservation_cancellation,
}
use gestion_alquileres_backe.Prelude.{
  List, ℕ, Option, map, ◌∷◌, filter_by, ◌++◌, ◌==◌, [], some, none, not,
}

abbrev pub guest_cancelable_statuses : List ReservationStatus
guest_cancelable_statuses = pending_payment ∷ pending ∷ confirmed ∷ []

-- the reservation joined with its unit, with `approved_paid`
pub record GuestCurrent : Type 0 where
  pub row : Reservation
  pub policy : Option CancellationPolicy
  pub approved : ℤ

unfoldable join_unit : Bookings → Reservation → List GuestCurrent
join_unit t r =
    map
      (λ u. record {
        row = r;
        policy = u.cancellation_policy;
        approved = approved_paid r.id t.payments;
      })
      (filter_by (λ u. u.id == r.unit_id) t.units)

unfoldable flat : {A B : Type 0} → (A → List B) → List A → List B
flat f [] = []
flat f (x ∷ xs) = f x ++ flat f xs

-- `FROM reservations r JOIN units u ON u.id = r.unit_id WHERE r.id = $1`
unfoldable pub find_guest_current : ℕ → Bookings → List GuestCurrent
unfolding join_unit flat
find_guest_current id t = flat (join_unit t) (filter_by (λ r. r.id == id) t.reservations)

-- `row.cancellation_policy ?? 'moderate'`
abbrev pub policy_or_moderate : Option CancellationPolicy → CancellationPolicy
policy_or_moderate none = moderate
policy_or_moderate (some policy) = policy

module _ ⦃dec : DecimalLib⦄ where
  -- what both methods compute from the row and the time
  unfoldable pub refundable_of : ℤ → GuestCurrent → Decimal
  refundable_of now c =
      let deposit = cents c.row.security_deposit in
      let rent_portion = minus (cents c.row.total_amount) deposit in
      let refund =
        compute_cancellation_refund (policy_or_moderate c.policy) c.row.checkin_date now in
      compute_refundable_amount refund.refund_percentage (cents c.approved) rent_portion

  -- `rows.length === 0`, and the refund of the first row
  abbrev preview_found : ℤ → List GuestCurrent → Option Decimal
  preview_found now [] = none
  preview_found now (c ∷ cs) = some (refundable_of now c)

  -- `getCancellationPreview`; `none` stands for NotFoundException
  unfoldable pub cancellation_preview : ℤ → ℕ → ℕ → Bookings → Option Decimal
  cancellation_preview now id tenant_id t =
      preview_found now
        (filter_by (λ (c : GuestCurrent). c.row.tenant_id == tenant_id) (find_guest_current id t))

  -- the body of the `try` block, for the rows that were found; the total of the refunds is kept
  unfoldable pub cancel_found :
      ℤ → ℕ → ℕ → List GuestCurrent → Action Bookings ReservationError Decimal
  cancel_found now id tenant_id [] = throw not_found
  cancel_found now id tenant_id (c ∷ cs) = do
    throw_when (not (c.row.tenant_id == tenant_id)) not_found
    throw_when (not (includes guest_cancelable_statuses c.row.status)) conflict
    update (set_reservation_status cancelled id)
    update (release_nights id)
    refund_absolute_amount id (refundable_of now c) tenant_id reservation_cancellation

  -- `cancelMyReservation`, up to the commit
  unfoldable pub cancel_my_reservation : ℤ → ℕ → ℕ → Action Bookings ReservationError Decimal
  cancel_my_reservation now id tenant_id =
      transaction
        (do current ← select (find_guest_current id); cancel_found now id tenant_id current)
