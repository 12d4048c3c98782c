-- ===== src/Payments/Confirmation/Refinement.antt =====
-- `confirmIfFullyPaid` of src/payments/reservation-payment-confirmation.service.ts against what it
-- promises.
use gestion_alquileres_backe.Payments.Confirmation.Rows.{confirmed_in, with_id, confirm_rows_lem}
use gestion_alquileres_backe.Transaction.Commit.{throw_when->>-Yields}
use gestion_alquileres_backe.Transaction.Rules.{
  Yields, pure-Yields, query-Yields, >>=-Yields, select-Yields, NoFaults, >>-Yields,
  throw_when-Yields,
}
use mathlib.Core.Path.{subst}
use gestion_alquileres_backe.Prelude.Int.{pos, negsuc, ◌*ℤ◌}
use mathlib.Core.Bool.{true}
use gestion_alquileres_backe.Payments.Confirmation.{
  tolerance, is_unpaid, hold_expired, required_total, find_payable, confirm_rows, confirm_paid,
  confirm_found, confirm_unpaid, confirm_if_found, confirm_if_fully_paid,
}
use gestion_alquileres_backe.Transaction.{
  Failure, thrown, Action, query, pure, Session, select, ◌>>=◌,
}
use gestion_alquileres_backe.Reservations.Tables.{
  Bookings, ReservationError, Reservation, approved_paid, conflict,
}
use gestion_alquileres_backe.Money.Numeral.{lt, plus, cents}
use gestion_alquileres_backe.Prelude.Int.{ℤ, ◌+ℤ◌, ltb_ℤ}
use gestion_alquileres_backe.Prelude.{
  Bool, Result, ℕ, Option, ok, if◌then◌else◌, some, false, ◌==◌, true, err, ◌≡◌, none, arith,
  length, ◌≤◌, refl,
}

-- What a reservation gets.
pub data Decision : Type 0 where
  stay_unpaid too_late confirmable : Decision

-- By its deadline and what is paid, to the cent.
abbrev decide_unpaid : Bool → Bool → Decision
decide_unpaid true _ = too_late
decide_unpaid false true = stay_unpaid
decide_unpaid false false = confirmable

unfoldable pub decide : ℤ → ℕ → Bookings → Option Reservation → Decision
decide now id t none = stay_unpaid
decide now id t (some r) =
    if is_unpaid r
    then decide_unpaid (hold_expired now r) (ltb_ℤ (approved_paid id t.payments) (required_total r))
    else stay_unpaid

abbrev pub answer : (ℕ → ℕ) → Decision → Result (Failure ReservationError) Bool
answer raw_length stay_unpaid = ok false
answer raw_length too_late = err (thrown conflict)
answer raw_length confirmable = ok (raw_length 1 == 1)

abbrev pub outcome : ℕ → Bookings → Decision → Bookings
outcome id t stay_unpaid = t
outcome id t too_late = t
outcome id t confirmable = confirmed_in id t

-- The tolerance of 0.009 is less than a cent.
lt-tolerance : (a b : ℤ) → lt (plus (cents a) tolerance) (cents b) ≡ ltb_ℤ a b
unfolding lt plus ◌+ℤ◌ ◌*ℤ◌
lt-tolerance (pos a) (pos b) = ground arith
lt-tolerance (pos a) (negsuc b) = ground arith
lt-tolerance (negsuc a) (pos b) = ground arith
lt-tolerance (negsuc a) (negsuc b) = ground arith

module _ (raw_length : ℕ → ℕ) (now : ℤ) (id : ℕ) (t : Bookings)
    (h : length (with_id id t.reservations) ≤ 1) where
  -- The decision is carried out, when no query fails.
  abbrev Carried : Action Bookings ReservationError Bool → Decision → Type 0
  Carried m d = Yields m t (answer raw_length d) (outcome id t d)

  confirm_paid-Carried :
      (r : Reservation) (b : Bool)
      → find_payable id t.reservations ≡ some r
      → is_unpaid r ≡ true
      → ltb_ℤ (approved_paid id t.payments) (required_total r) ≡ b
      → Carried
          (confirm_paid raw_length id r (cents (approved_paid id t.payments)))
          (decide_unpaid false b)
  unfolding confirm_paid
  confirm_paid-Carried r true f u e =
      rw (lt-tolerance (approved_paid id t.payments) (required_total r), e) (pure-Yields false t)
  confirm_paid-Carried r false f u e =
      rw (lt-tolerance (approved_paid id t.payments) (required_total r), e)
        (>>=-Yields (λ n. pure (raw_length n == 1)) rows_confirmed
          (pure-Yields (raw_length 1 == 1) (confirmed_in id t)))
    where
      rows_confirmed :
          Yields {E = ReservationError} (query (confirm_rows id)) t (ok 1) (confirmed_in id t)
      rows_confirmed =
          subst
            (λ (x : ℕ × Bookings).
              Yields {E = ReservationError} (query (confirm_rows id)) t (ok x.0) x.1)
            (confirm_rows_lem id t r h f u) (query-Yields (confirm_rows id) t)

  confirm_unpaid-Carried :
      (r : Reservation) (b : Bool)
      → find_payable id t.reservations ≡ some r
      → is_unpaid r ≡ true
      → hold_expired now r ≡ b
      → Carried
          (confirm_unpaid raw_length now id r)
          (decide_unpaid b (ltb_ℤ (approved_paid id t.payments) (required_total r)))
  unfolding confirm_unpaid
  confirm_unpaid-Carried r true f u e = rw e (
      throw_when->>-Yields conflict
        (select (λ (t : Bookings). cents (approved_paid id t.payments))
          >>= confirm_paid raw_length id r)
        t)
  confirm_unpaid-Carried r false f u e = rw e (
      >>-Yields
        (select (λ (t : Bookings). cents (approved_paid id t.payments))
          >>= confirm_paid raw_length id r)
        (throw_when-Yields false conflict t refl)
        (>>=-Yields (confirm_paid raw_length id r)
          (select-Yields (λ (t : Bookings). cents (approved_paid id t.payments)) t)
          (confirm_paid-Carried r (ltb_ℤ (approved_paid id t.payments) (required_total r)) f u
            refl)))

  confirm_found-Carried :
      (r : Reservation) (b : Bool)
      → find_payable id t.reservations ≡ some r
      → is_unpaid r ≡ b
      → Carried (confirm_found raw_length now id r) (decide now id t (some r))
  unfolding confirm_found decide
  confirm_found-Carried r true f u = rw u (confirm_unpaid-Carried r (hold_expired now r) f u refl)
  confirm_found-Carried r false f u = rw u (pure-Yields false t)

  confirm_if_found-Carried :
      (found : Option Reservation)
      → find_payable id t.reservations ≡ found
      → Carried (confirm_if_found raw_length now id found) (decide now id t found)
  unfolding confirm_if_found decide
  confirm_if_found-Carried none f = pure-Yields false t
  confirm_if_found-Carried (some r) f = confirm_found-Carried r (is_unpaid r) f refl

  confirm-Carried :
      id == 0 ≡ false
      → Carried
          (confirm_if_fully_paid raw_length now (some id))
          (decide now id t (find_payable id t.reservations))
  unfolding confirm_if_fully_paid
  confirm-Carried k = rw k (
      >>=-Yields (confirm_if_found raw_length now id)
        (select-Yields (λ (t : Bookings). find_payable id t.reservations) t)
        (confirm_if_found-Carried (find_payable id t.reservations) refl))

-- `confirmIfFullyPaid` does what it promises, when no query fails, the number is not 0 and at most one
-- reservation has it: a reservation that waits for its payment gets a conflict once its hold is over,
-- and else is confirmed, without a deadline, when its approved payments are not less than the deposit
-- that it requires, or its total where none is given, and nothing else changes; the answer is then true
-- just when the result of an update of one row has one entry. In every other case the answer is false
-- and nothing changes.
pub confirm_if_fully_paid_refines :
    (raw_length : ℕ → ℕ) (now : ℤ) (id : ℕ) (s : Session Bookings)
    → NoFaults s
    → id == 0 ≡ false
    → length (with_id id s.store.reservations) ≤ 1
    → ((confirm_if_fully_paid raw_length now (some id) s).0
        ≡ answer raw_length (decide now id s.store (find_payable id s.store.reservations)))
      × ((confirm_if_fully_paid raw_length now (some id) s).1.store
          ≡ outcome id s.store (decide now id s.store (find_payable id s.store.reservations)))
confirm_if_fully_paid_refines raw_length now id s n k h =
    let y = confirm-Carried raw_length now id s.store h k in (y.result s refl n, y.store s refl n)
