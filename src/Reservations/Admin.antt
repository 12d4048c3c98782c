-- ===== src/Reservations/Admin.antt =====
-- src/reservations/reservations-admin.service.ts, `transition`: an action of an administrator on a
-- reservation, with its refund and the cleaning order, in one transaction.
pub mod Outcome
use gestion_alquileres_backe.Reservations.Cancellation.{compute_deposit_paid}
use gestion_alquileres_backe.Money.Numeral.{cents, minus}
use gestion_alquileres_backe.Reservations.Refunds.{refund_approved_payments, refund_absolute_amount}
use gestion_alquileres_backe.Transaction.{
  Action, throw, transaction, ◌>>=◌, select, ◌>>◌, update, pure, throw_when,
}
use gestion_alquileres_backe.Prelude.Int.{ℤ}
use gestion_alquileres_backe.Money.Decimal.{DecimalLib}
use gestion_alquileres_backe.Prelude.{
  ℕ, Bool, List, true, map, ◌++◌, false, filter_by, ◌∷◌, ◌==◌, [], if◌then◌else◌, not,
}
use gestion_alquileres_backe.Reservations.Tables.{
  Reservation, approved_paid, Bookings, set_status, release_night, ReservationError, not_found,
  conflict, security_deposit_return,
}
use gestion_alquileres_backe.Reservations.Status.{
  ReservationAction, ReservationStatus, cancel, complete, decline, reservation_transitions,
  includes,
}

abbrev is_full_refund : ReservationAction → Bool
is_full_refund cancel = true
is_full_refund decline = true
is_full_refund _ = false

abbrev is_complete : ReservationAction → Bool
is_complete complete = true
is_complete _ = false

-- the row that `transition` reads, with `approved_paid`
pub record Current : Type 0 where
  pub row : Reservation
  pub approved : ℤ

-- `SELECT … FROM reservations WHERE id = $1 FOR UPDATE`
unfoldable pub find_current : ℕ → Bookings → List Current
unfolding approved_paid
find_current id t =
    map (λ r. record { row = r; approved = approved_paid id t.payments })
      (filter_by (λ r. r.id == id) t.reservations)

unfoldable pub set_reservation_status : ReservationStatus → ℕ → Bookings → Bookings
set_reservation_status status id t = record t {
  reservations = map (set_status status id) t.reservations;
}

unfoldable pub release_nights : ℕ → Bookings → Bookings
release_nights id t = record t { nights = map (release_night id) t.nights }

unfoldable pub insert_cleaning_order : ℕ → Reservation → ℕ → Bookings → Bookings
insert_cleaning_order id r admin t = record t {
  cleaning_orders =
      t.cleaning_orders
      ++ (record {
        reservation_id = id;
        property_id = r.property_id;
        tenant_id = r.tenant_id;
        due_date = r.checkout_date;
        assigned_to = admin;
      }
          ∷ []);
}

-- `createTurnoverCleaningOrder`
unfoldable pub create_turnover_cleaning_order :
    ℕ → Reservation → ℕ → Action Bookings ReservationError (Unit {0})
create_turnover_cleaning_order id r admin = do
  existing ← select (λ t. filter_by (λ o. o.reservation_id == id) t.cleaning_orders)
  elim existing [ [] ↦ update (insert_cleaning_order id r admin) | o ∷ os ↦ pure tt ]

module _ ⦃dec : DecimalLib⦄ where
  -- `applyRefundForAction`
  unfoldable pub apply_refund_for_action :
      ℕ → ReservationAction → Current → ℕ → Action Bookings ReservationError (Unit {0})
  apply_refund_for_action id action c admin =
      if is_full_refund action
      then (do refund_approved_payments id 100 admin; pure tt)
      else if is_complete action
      then (do
        let deposit = cents c.row.security_deposit
        let rent_portion = minus (cents c.row.total_amount) deposit
        refund_absolute_amount id (compute_deposit_paid (cents c.approved) rent_portion) admin
            security_deposit_return
        pure tt)
      else pure tt

  -- the body of the `try` block, for the row that was found
  unfoldable pub apply_transition :
      ℕ → ReservationAction → ℕ → List Current → Action Bookings ReservationError (Unit {0})
  apply_transition id action admin [] = throw not_found
  apply_transition id action admin (c ∷ cs) = do
    let row = reservation_transitions action
    throw_when (not (includes row.from c.row.status)) conflict
    update (set_reservation_status row.to id)
    if row.releases_availability then update (release_nights id) else pure tt
    apply_refund_for_action id action c admin
    if is_complete action then create_turnover_cleaning_order id c.row admin else pure tt

  -- `transition`, up to the commit
  unfoldable pub transition :
      ℕ → ReservationAction → ℕ → Action Bookings ReservationError (Unit {0})
  transition id action admin =
      transaction (do current ← select (find_current id); apply_transition id action admin current)
