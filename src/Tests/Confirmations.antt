-- ===== src/Tests/Confirmations.antt =====
-- Runs of src/payments/reservation-payment-confirmation.service.ts: a stay of 500.00 with a deposit of
-- 150.00, of which 100.00 and 50.00 are paid.
use gestion_alquileres_backe.Payments.Status.{approved}
use gestion_alquileres_backe.Reservations.Status.{pending_payment}
use gestion_alquileres_backe.Transaction.{Session}
use gestion_alquileres_backe.Reservations.Tables.{Reservation, Bookings, approved_paid}
use gestion_alquileres_backe.Prelude.Int.{ℤ, pos, sum_ℤ, ◌+ℤ◌}
use gestion_alquileres_backe.Payments.Confirmation.{
  confirm_if_fully_paid, find_payable, hold_expired, required_total,
}
use gestion_alquileres_backe.Payments.Confirmation.Refinement.{
  decide, confirmable, too_late, answer, outcome, confirm_if_fully_paid_refines,
}
use gestion_alquileres_backe.Prelude.{Option, some, ◌∷◌, false, ◌≡◌, [], arith, refl}

abbrev awaited : Option ℤ → Reservation
awaited deadline = record {
  id = 1;
  property_id = 2;
  unit_id = 3;
  tenant_id = 9;
  checkin_date = pos 1000000000;
  checkout_date = 15;
  total_amount = pos 50000;
  security_deposit = pos 10000;
  deposit_required = some (pos 15000);
  status = pending_payment;
  expires_at = deadline;
  created_at = pos 0;
}

abbrev paid_in_parts : Option ℤ → Bookings
paid_in_parts deadline = record {
  reservations = awaited deadline ∷ [];
  nights = [];
  payments =
      record { id = 4; reservation_id = some 1; amount = pos 10000; status = approved }
      ∷ record { id = 5; reservation_id = some 1; amount = pos 5000; status = approved }
      ∷ [];
  payment_refunds = [];
  cleaning_orders = [];
  units = [];
}

abbrev confirming : Option ℤ → Session Bookings
confirming deadline = record { store = paid_in_parts deadline; queries = 0; fails = λ n. false }

-- The deposit is reached before the deadline.
reached :
    decide (pos 7) 1 (paid_in_parts (some (pos 8))) (some (awaited (some (pos 8)))) ≡ confirmable
unfolding decide hold_expired approved_paid sum_ℤ ◌+ℤ◌ required_total
reached = refl

-- The deadline itself is too late.
ended_hold :
    decide (pos 8) 1 (paid_in_parts (some (pos 8))) (some (awaited (some (pos 8)))) ≡ too_late
unfolding decide hold_expired
ended_hold = refl

confirm_if_fully_paid_refines_example :
    ((confirm_if_fully_paid (λ n. n) (pos 7) (some 1) (confirming (some (pos 8)))).0
      ≡ answer
          (λ n. n)
          (decide
            (pos 7)
            1
            (paid_in_parts (some (pos 8)))
            (find_payable 1 (awaited (some (pos 8)) ∷ []))))
    × ((confirm_if_fully_paid (λ n. n) (pos 7) (some 1) (confirming (some (pos 8)))).1.store
        ≡ outcome 1 (paid_in_parts (some (pos 8))) (
            decide
              (pos 7)
              1
              (paid_in_parts (some (pos 8)))
              (find_payable 1 (awaited (some (pos 8)) ∷ []))))
confirm_if_fully_paid_refines_example =
    confirm_if_fully_paid_refines (λ n. n) (pos 7) 1 (confirming (some (pos 8))) (λ n. refl) refl
      (omega arith)
