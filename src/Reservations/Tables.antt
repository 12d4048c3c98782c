-- ===== src/Reservations/Tables.antt =====
-- The tables of a tenant's schema that src/reservations reads and writes, and their queries. Amounts
-- are DECIMAL(12, 2) columns, held in cents; times are milliseconds, dates are day numbers.
use gestion_alquileres_backe.Reservations.Cancellation.{CancellationPolicy}
use gestion_alquileres_backe.Payments.Status.{PaymentStatus, payment_status_eq, refunded, approved}
use gestion_alquileres_backe.Prelude.Int.{ℤ, sum_ℤ}
use gestion_alquileres_backe.Reservations.Status.{ReservationStatus}
use gestion_alquileres_backe.Prelude.{
  Bool, ℕ, List, true, Option, if◌then◌else◌, filter_by, false, ◌==◌, ◌&&◌, some, none, map,
}

-- src/reservations/enums/availability-status.enum.ts
pub data AvailabilityStatus : Type 0 where
  available blocked booked : AvailabilityStatus

abbrev pub is_booked : AvailabilityStatus → Bool
is_booked booked = true
is_booked _ = false

pub record Reservation : Type 0 where
  pub id : ℕ
  pub property_id : ℕ
  pub unit_id : ℕ
  pub tenant_id : ℕ
  pub checkin_date : ℤ
  pub checkout_date : ℕ
  pub total_amount : ℤ
  pub security_deposit : ℤ
  pub deposit_required : Option ℤ
  pub status : ReservationStatus
  pub expires_at : Option ℤ
  pub created_at : ℤ

-- a row of property_availability
pub record Night : Type 0 where
  pub property_id : ℕ
  pub unit_id : ℕ
  pub date : ℕ
  pub status : AvailabilityStatus
  pub reservation_id : Option ℕ

pub record Payment : Type 0 where
  pub id : ℕ
  pub reservation_id : Option ℕ
  pub amount : ℤ
  pub status : PaymentStatus

pub data RefundCause : Type 0 where
  reservation_cancellation security_deposit_return : RefundCause

-- a row of payment_refunds
pub record PaymentRefund : Type 0 where
  pub payment_id : ℕ
  pub amount : ℤ
  pub reason : RefundCause
  pub processed_by : ℕ

-- a request of maintenance of the type CLEANING
pub record CleaningOrder : Type 0 where
  pub reservation_id : ℕ
  pub property_id : ℕ
  pub tenant_id : ℕ
  pub due_date : ℕ
  pub assigned_to : ℕ

pub record RentalUnit : Type 0 where
  pub id : ℕ
  pub cancellation_policy : Option CancellationPolicy

pub record Bookings : Type 0 where
  pub reservations : List Reservation
  pub nights : List Night
  pub payments : List Payment
  pub payment_refunds : List PaymentRefund
  pub cleaning_orders : List CleaningOrder
  pub units : List RentalUnit

pub data ReservationError : Type 0 where
  not_found conflict : ReservationError

abbrev pub is_id : ℕ → Option ℕ → Bool
is_id id none = false
is_id id (some x) = x == id

-- `UPDATE reservations SET status = $1 WHERE id = $2`
unfoldable pub set_status : ReservationStatus → ℕ → Reservation → Reservation
set_status status id r = if r.id == id then record r { status = status } else r

-- `SET status = 'available', reservation_id = NULL WHERE reservation_id = $2 AND status = 'booked'`
unfoldable pub release_night : ℕ → Night → Night
release_night id n =
    if is_id id n.reservation_id && is_booked n.status
    then record n { status = available; reservation_id = none }
    else n

-- the approved payments of a reservation
unfoldable pub approved_payments : ℕ → List Payment → List Payment
approved_payments id payments =
    filter_by (λ p. is_id id p.reservation_id && payment_status_eq p.status approved) payments

-- `COALESCE(SUM(amount), 0)` of them
unfoldable pub approved_paid : ℕ → List Payment → ℤ
unfolding approved_payments
approved_paid id payments = sum_ℤ (map (λ (p : Payment). p.amount) (approved_payments id payments))

-- `UPDATE payments SET status = 'REFUNDED' WHERE id = $2`
unfoldable pub mark_refunded : ℕ → Payment → Payment
mark_refunded id p = if p.id == id then record p { status = refunded } else p
