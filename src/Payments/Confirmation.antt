-- ===== src/Payments/Confirmation.antt =====
-- src/payments/reservation-payment-confirmation.service.ts: a reservation is confirmed once its
-- approved payments reach the deposit that it requires, or its total.
use gestion_alquileres_backe.Transaction.{Action, pure, ◌>>=◌, ◌>>◌, throw_when, select, query}
use gestion_alquileres_backe.Reservations.Status.{includes, confirmed, pending_payment}
use gestion_alquileres_backe.Money.Numeral.{Decimal, lt, plus, cents}
use gestion_alquileres_backe.Prelude.{
  ℕ, Bool, List, if◌then◌else◌, Option, none, ◌==◌, length, false, ◌∷◌, some, ◌&&◌, filter_by, [],
  map, not,
}
use gestion_alquileres_backe.Reservations.Tables.{
  Reservation, Bookings, ReservationError, conflict, approved_paid,
}
use gestion_alquileres_backe.Prelude.Int.{ℤ, pos, leb_ℤ}
pub mod Rows
pub mod Refinement

-- `expires_at IS NOT NULL AND expires_at <= NOW()`
unfoldable pub hold_expired : ℤ → Reservation → Bool
hold_expired now r = elim r.expires_at [ none ↦ false | some time ↦ leb_ℤ time now ]

abbrev pub is_unpaid : Reservation → Bool
is_unpaid r = includes (pending_payment ∷ []) r.status

-- `SELECT … FROM reservations WHERE id = $1 FOR UPDATE`, its first row
unfoldable pub find_payable : ℕ → List Reservation → Option Reservation
find_payable id [] = none
find_payable id (r ∷ rest) =
    let later = find_payable id rest in if r.id == id then some r else later

-- `requiredTotal`
unfoldable pub required_total : Reservation → ℤ
required_total r = elim r.deposit_required [ none ↦ r.total_amount | some deposit ↦ deposit ]

-- 0.009
abbrev pub tolerance : Decimal
tolerance = record { units = pos 9; places = 3 }

-- `WHERE id = $1 AND status = 'pending_payment'`
abbrev pub is_confirmable : ℕ → Reservation → Bool
is_confirmable id r = (r.id == id) && is_unpaid r

unfoldable pub confirm_row : ℕ → Reservation → Reservation
confirm_row id r =
    if is_confirmable id r then record r { status = confirmed; expires_at = none } else r

-- the update, and the number of rows that it returns
unfoldable pub confirm_rows : ℕ → Bookings → ℕ × Bookings
unfolding confirm_row
confirm_rows id t = (
  length (filter_by (is_confirmable id) t.reservations),
  record t { reservations = map (confirm_row id) t.reservations },
)

-- `raw_length`: how many entries the result of an UPDATE with RETURNING has for a number of rows. It is
-- this number where TypeORM gives the rows, and 2 where it gives the rows with their number.
module _ (raw_length : ℕ → ℕ) where
  unfoldable pub confirm_paid : ℕ → Reservation → Decimal → Action Bookings ReservationError Bool
  unfolding required_total
  confirm_paid id r paid =
      if lt (plus paid tolerance) (cents (required_total r))
      then pure false
      else (do confirmed_rows ← query (confirm_rows id); pure (raw_length confirmed_rows == 1))

  unfoldable pub confirm_unpaid : ℤ → ℕ → Reservation → Action Bookings ReservationError Bool
  confirm_unpaid now id r = do
    throw_when (hold_expired now r) conflict
    paid ← select (λ t. cents (approved_paid id t.payments))
    confirm_paid id r paid

  unfoldable pub confirm_found : ℤ → ℕ → Reservation → Action Bookings ReservationError Bool
  confirm_found now id r = if not (is_unpaid r) then pure false else confirm_unpaid now id r

  unfoldable pub confirm_if_found :
      ℤ → ℕ → Option Reservation → Action Bookings ReservationError Bool
  confirm_if_found now id none = pure false
  confirm_if_found now id (some r) = confirm_found now id r

  -- `confirmIfFullyPaid`
  unfoldable pub confirm_if_fully_paid : ℤ → Option ℕ → Action Bookings ReservationError Bool
  confirm_if_fully_paid now none = pure false
  confirm_if_fully_paid now (some id) =
      if id == 0
      then pure false
      else (do found ← select (λ t. find_payable id t.reservations); confirm_if_found now id found)
