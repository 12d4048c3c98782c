-- ===== src/Tests/Stays.antt =====
-- Runs of src/reservations: a confirmed stay of 500.00 with a deposit of 100.00, paid in full.
use gestion_alquileres_backe.Reservations.Guest.Preview.{freed, cancel_refunds_preview}
use gestion_alquileres_backe.Payments.Status.{approved}
use gestion_alquileres_backe.Reservations.Status.History.{few_actions, acted, created}
use gestion_alquileres_backe.Reservations.Nights.Expired.{expire_for_schema_keeps_nights}
use gestion_alquileres_backe.Reservations.Nights.Operations.{
  cancel_my_reservation_keeps_nights, transition_keeps_nights,
}
use gestion_alquileres_backe.Reservations.Refunds.{refund_absolute_amount}
use gestion_alquileres_backe.Money.Numeral.{cents}
use gestion_alquileres_backe.Reservations.Cancellation.Laws.{
  cancellation_refund_mono, refundable_amount_bounds,
}
use gestion_alquileres_backe.Reservations.Expiry.{expire_for_schema}
use gestion_alquileres_backe.Money.Decimal.{exact_decimals}
use gestion_alquileres_backe.Transaction.{
  Session, transaction, ◌>>=◌, ◌>>◌, select, thrown, query, update, throw_when, pure,
}
use gestion_alquileres_backe.Reservations.Admin.Outcome.{
  Applied, objection, transition_follows_table, transition_refuses,
}
use gestion_alquileres_backe.Reservations.Admin.{
  transition, find_current, apply_transition, apply_refund_for_action,
}
use gestion_alquileres_backe.Reservations.Refunds.Totals.{
  collected, IsCollected, Refunded, refund_absolute_amount_total,
}
use gestion_alquileres_backe.Prelude.Int.{◌-ℤ◌, pos, sum_ℤ, ◌+ℤ◌}
use gestion_alquileres_backe.Reservations.Guest.{
  GuestCurrent, find_guest_current, cancel_my_reservation, cancellation_preview,
}
use gestion_alquileres_backe.Reservations.Tables.{
  approved_payments, Reservation, Bookings, approved_paid, security_deposit_return, conflict,
  booked,
}
use gestion_alquileres_backe.Reservations.Cancellation.{
  compute_cancellation_refund, moderate, compute_refundable_amount, flexible,
}
use gestion_alquileres_backe.Prelude.{
  ◌≤◌, ℕ, min, All, none, ◌∷◌, false, ◌≡◌, some, [], true, arith, ◌-◌, ok, err, refl,
}
use gestion_alquileres_backe.Reservations.Nights.{HasCleanNights}
use gestion_alquileres_backe.Reservations.Status.{
  pending, ReservationStatus, confirmed, includes, check_in, terminal_reservation_statuses,
  no_show_action, complete, confirm,
}

abbrev stay : ReservationStatus → Reservation
stay status = record {
  id = 1;
  property_id = 2;
  unit_id = 3;
  tenant_id = 9;
  checkin_date = pos 1000000000;
  checkout_date = 15;
  total_amount = pos 50000;
  security_deposit = pos 10000;
  deposit_required = some (pos 15000);
  status = status;
  expires_at = none;
  created_at = pos 0;
}

abbrev tables : ReservationStatus → Bookings
tables status = record {
  reservations = stay status ∷ [];
  nights =
      record { property_id = 2; unit_id = 3; date = 14; status = booked; reservation_id = some 1 }
      ∷ [];
  payments = record { id = 4; reservation_id = some 1; amount = pos 50000; status = approved } ∷ [];
  payment_refunds = [];
  cleaning_orders = [];
  units = record { id = 3; cancellation_policy = some flexible } ∷ [];
}

abbrev session : ReservationStatus → Session Bookings
session status = record { store = tables status; queries = 0; fails = λ n. false }

clean : HasCleanNights (tables confirmed)
clean = ((refl, tt), tt)

abbrev actions : ℕ
actions = 3

abbrev half : ℕ
half = 50

few_actions_example :
    (actions ≤ 3) × (includes terminal_reservation_statuses pending ≡ true → actions ≡ 0)
few_actions_example =
    few_actions (acted complete (acted check_in (acted confirm (created pending) refl) refl) refl)

cancellation_refund_mono_example :
    (compute_cancellation_refund moderate (pos 1000000000) (pos 900000000)).refund_percentage
    ≤ (compute_cancellation_refund moderate (pos 1000000000) (pos 100)).refund_percentage
cancellation_refund_mono_example =
    cancellation_refund_mono moderate (pos 1000000000) (pos 100) (pos 900000000) (omega arith)

refundable_amount_bounds_example :
    (refund : ℕ) × (compute_refundable_amount ⦃dec = exact_decimals⦄ 50
        (cents (pos 50000))
        (cents (pos 40000))
      ≡ cents (pos refund))
    × (50000 - 40000 ≤ refund)
    × (refund ≤ 50000)
    × (half ≡ 100 → refund ≡ 50000)
    × (half ≡ 0 → refund ≡ 50000 - 40000)
refundable_amount_bounds_example =
    refundable_amount_bounds ⦃dec = exact_decimals⦄ 50 50000 40000 (omega arith)

approved_found : approved_payments 1 (tables confirmed).payments ≡ (tables confirmed).payments
unfolding approved_payments
approved_found = refl

paid_rows : All IsCollected (approved_payments 1 (tables confirmed).payments)
unfolding approved_payments
paid_rows = (omega arith, tt)

refund_absolute_amount_total_example :
    let given = min 10000 (collected (approved_payments 1 (tables confirmed).payments)) in
    let after =
      refund_absolute_amount ⦃dec = exact_decimals⦄ 1
        (cents (pos 10000))
        7
        security_deposit_return
        (session confirmed) in
    (after.0 ≡ ok (cents (pos given))) × Refunded (tables confirmed) given after.1.store
refund_absolute_amount_total_example =
    refund_absolute_amount_total ⦃dec = exact_decimals⦄ 1 7 10000 security_deposit_return
      (session confirmed) (λ n. refl) paid_rows

abbrev guest_row : GuestCurrent
guest_row = record { row = stay confirmed; policy = some flexible; approved = pos 50000 }

guest_found : find_guest_current 1 (tables confirmed) ≡ guest_row ∷ []
unfolding find_guest_current approved_paid approved_payments sum_ℤ ◌+ℤ◌
guest_found = refl

rent_portion : pos 50000 -ℤ pos 10000 ≡ pos 40000
unfolding ◌-ℤ◌
rent_portion = refl

cancel_refunds_preview_example :
    let paid = collected (approved_payments 1 (tables confirmed).payments) in
    let after = cancel_my_reservation ⦃dec = exact_decimals⦄ (pos 0) 1 9 (session confirmed) in
    (refund : ℕ) × (cancellation_preview ⦃dec = exact_decimals⦄ (pos 0) 1 9 (tables confirmed)
      ≡ some (cents (pos refund)))
    × (after.0 ≡ ok (cents (pos refund)))
    × Refunded (freed ⦃dec = exact_decimals⦄ 1 (tables confirmed)) refund after.1.store
    × (paid - 40000 ≤ refund)
    × (refund ≤ paid)
cancel_refunds_preview_example =
    cancel_refunds_preview ⦃dec = exact_decimals⦄ (pos 0) 1 9 40000 guest_row [] (session confirmed)
      (λ n. refl) guest_found refl refl paid_rows rent_portion

transition_keeps_nights_example :
    HasCleanNights
      (transition ⦃dec = exact_decimals⦄ 1 no_show_action 7 (session confirmed)).1.store
transition_keeps_nights_example =
    transition_keeps_nights ⦃dec = exact_decimals⦄ 1 no_show_action 7 (session confirmed) clean

cancel_my_reservation_keeps_nights_example :
    HasCleanNights
      (cancel_my_reservation ⦃dec = exact_decimals⦄ (pos 0) 1 9 (session confirmed)).1.store
cancel_my_reservation_keeps_nights_example =
    cancel_my_reservation_keeps_nights ⦃dec = exact_decimals⦄ (pos 0) 1 9 (session confirmed) clean

expire_for_schema_keeps_nights_example :
    HasCleanNights (expire_for_schema (pos 900000000) (session pending)).1.store
expire_for_schema_keeps_nights_example =
    expire_for_schema_keeps_nights (pos 900000000) (session pending) ((refl, tt), tt)

checked_in : (transition ⦃dec = exact_decimals⦄ 1 check_in 7 (session confirmed)).0 ≡ ok tt
unfolding transition transaction ◌>>=◌ ◌>>◌ select query update throw_when pure find_current
    apply_transition apply_refund_for_action
checked_in = refl

transition_follows_table_example :
    Applied 1 check_in
      (tables confirmed)
      (transition ⦃dec = exact_decimals⦄ 1 check_in 7 (session confirmed)).1.store
transition_follows_table_example =
    transition_follows_table ⦃dec = exact_decimals⦄ 1 check_in 7 (session confirmed) checked_in

objects :
    objection ⦃dec = exact_decimals⦄ check_in (find_current 1 (tables pending)) ≡ some conflict
unfolding find_current
objects = refl

transition_refuses_example :
    ((transition ⦃dec = exact_decimals⦄ 1 check_in 7 (session pending)).0 ≡ err (thrown conflict))
    × ((transition ⦃dec = exact_decimals⦄ 1 check_in 7 (session pending)).1.store ≡ tables pending)
transition_refuses_example =
    transition_refuses ⦃dec = exact_decimals⦄ 1 check_in 7 (session pending) conflict (λ n. refl)
      objects
