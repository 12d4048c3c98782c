-- ===== src/Reservations/Nights/Operations.antt =====
-- The administrator's actions, a guest's cancellation and the expiry of holds keep the nights in order.
use gestion_alquileres_backe.Reservations.Nights.Kept.{
  apply_refund_for_action-Keeps, refund_absolute_amount-Keeps, create_turnover-Keeps, IgnoresMoney,
}
use gestion_alquileres_backe.Transaction.Commit.{
  Lands, Lands→Keeps, throw-Lands, select->>=-Lands, update->>-Lands, throw_when->>-Lands,
  pure->>-Lands, Keeps→Lands,
}
use gestion_alquileres_backe.Transaction.Rules.{Keeps, >>-Keeps, pure-Keeps}
use gestion_alquileres_backe.Reservations.Nights.{
  HasCleanNights, is_released, hold-HasCleanNights, free-HasCleanNights,
}
use gestion_alquileres_backe.Transaction.{Session, Action, update, ◌>>◌, pure}
use gestion_alquileres_backe.Reservations.Tables.{
  Bookings, ReservationError, not_found, conflict, reservation_cancellation,
}
use gestion_alquileres_backe.Prelude.Int.{ℤ}
use gestion_alquileres_backe.Reservations.Status.{
  ReservationAction, ReservationStatus, confirmed, cancelled, declined, in_progress, no_show,
  completed, confirm, decline, cancel, check_in, no_show_action, complete,
}
use gestion_alquileres_backe.Reservations.Guest.{
  cancel_found, cancel_my_reservation, GuestCurrent, find_guest_current,
}
use gestion_alquileres_backe.Reservations.Admin.{
  apply_transition, transition, Current, apply_refund_for_action, set_reservation_status,
  find_current, release_nights, create_turnover_cleaning_order,
}
use gestion_alquileres_backe.Prelude.{ℕ, List, Bool, ◌≡◌, if◌then◌else◌, false, ◌∷◌, true, [], refl}
use gestion_alquileres_backe.Money.Decimal.{DecimalLib}

HasCleanNights-IgnoresMoney : IgnoresMoney HasCleanNights
HasCleanNights-IgnoresMoney t rows payments orders h = h

module _ ⦃dec : DecimalLib⦄ where
  -- what follows the update of the status
  then_rest :
      (id : ℕ) (action : ReservationAction) (c : Current) (admin : ℕ) (b : Bool)
      → Keeps HasCleanNights (
          apply_refund_for_action id action c admin
          >> (if b then create_turnover_cleaning_order id c.row admin else pure tt))
  then_rest id action c admin true =
      >>-Keeps
        (apply_refund_for_action-Keeps HasCleanNights HasCleanNights-IgnoresMoney id action c admin)
        (create_turnover-Keeps HasCleanNights HasCleanNights-IgnoresMoney id c.row admin)
  then_rest id action c admin false =
      >>-Keeps
        (apply_refund_for_action-Keeps HasCleanNights HasCleanNights-IgnoresMoney id action c admin)
        (pure-Keeps tt)

  held_after :
      (id : ℕ) (status : ReservationStatus) (t : Bookings)
      (k : Action Bookings ReservationError (Unit {0}))
      → is_released status ≡ false
      → HasCleanNights t
      → Keeps HasCleanNights k
      → Lands t (update (set_reservation_status status id) >> (pure tt >> k)) HasCleanNights
  held_after id status t k s h l =
      update->>-Lands (set_reservation_status status id) _ t
        (pure->>-Lands _ _ (Keeps→Lands k _ (hold-HasCleanNights status id t s h) l))

  freed_after :
      (id : ℕ) (status : ReservationStatus) (t : Bookings)
      (k : Action Bookings ReservationError (Unit {0}))
      → HasCleanNights t
      → Keeps HasCleanNights k
      → Lands t
          (update (set_reservation_status status id) >> (update (release_nights id) >> k))
          HasCleanNights
  freed_after id status t k h l = update->>-Lands (set_reservation_status status id) _ t (
      update->>-Lands (release_nights id) _ _
        (Keeps→Lands k _ (free-HasCleanNights status id t h) l))

  apply_transition-Lands :
      (id : ℕ) (action : ReservationAction) (admin : ℕ) (current : List Current) (t : Bookings)
      → HasCleanNights t
      → Lands t (apply_transition id action admin current) HasCleanNights
  unfolding apply_transition
  apply_transition-Lands id action admin [] t h = throw-Lands not_found t
  apply_transition-Lands id confirm admin (c ∷ cs) t h =
      throw_when->>-Lands _ conflict _ t
        (λ _. held_after id confirmed t _ refl h (then_rest id confirm c admin false))
  apply_transition-Lands id decline admin (c ∷ cs) t h =
      throw_when->>-Lands _ conflict _ t
        (λ _. freed_after id declined t _ h (then_rest id decline c admin false))
  apply_transition-Lands id cancel admin (c ∷ cs) t h =
      throw_when->>-Lands _ conflict _ t
        (λ _. freed_after id cancelled t _ h (then_rest id cancel c admin false))
  apply_transition-Lands id check_in admin (c ∷ cs) t h =
      throw_when->>-Lands _ conflict _ t
        (λ _. held_after id in_progress t _ refl h (then_rest id check_in c admin false))
  apply_transition-Lands id no_show_action admin (c ∷ cs) t h =
      throw_when->>-Lands _ conflict _ t
        (λ _. freed_after id no_show t _ h (then_rest id no_show_action c admin false))
  apply_transition-Lands id complete admin (c ∷ cs) t h =
      throw_when->>-Lands _ conflict _ t
        (λ _. held_after id completed t _ refl h (then_rest id complete c admin true))

  -- No action of an administrator leaves a booked night to a reservation that was cancelled,
  -- declined, missed or expired, on any outcome.
  pub transition_keeps_nights :
      (id : ℕ) (action : ReservationAction) (admin : ℕ) (s : Session Bookings)
      → HasCleanNights s.store
      → HasCleanNights (transition id action admin s).1.store
  unfolding transition
  transition_keeps_nights id action admin =
      (Lands→Keeps _ (λ t h.
        select->>=-Lands (find_current id) _ t
          (apply_transition-Lands id action admin (find_current id t) t h))).keep

  cancel_found-Lands :
      (now : ℤ) (id tenant : ℕ) (current : List GuestCurrent) (t : Bookings)
      → HasCleanNights t
      → Lands t (cancel_found now id tenant current) HasCleanNights
  unfolding cancel_found
  cancel_found-Lands now id tenant [] t h = throw-Lands not_found t
  cancel_found-Lands now id tenant (c ∷ cs) t h = throw_when->>-Lands _ not_found _ t (λ _.
      throw_when->>-Lands _ conflict _ t (λ _.
        update->>-Lands (set_reservation_status cancelled id) _ t (
          update->>-Lands (release_nights id) _ _ (
            Keeps→Lands _ _ (free-HasCleanNights cancelled id t h) (
              refund_absolute_amount-Keeps HasCleanNights HasCleanNights-IgnoresMoney id _ tenant
                reservation_cancellation)))))

  -- Nor does the cancellation of a guest.
  pub cancel_my_reservation_keeps_nights :
      (now : ℤ) (id tenant : ℕ) (s : Session Bookings)
      → HasCleanNights s.store
      → HasCleanNights (cancel_my_reservation now id tenant s).1.store
  unfolding cancel_my_reservation
  cancel_my_reservation_keeps_nights now id tenant =
      (Lands→Keeps _ (λ t h.
        select->>=-Lands (find_guest_current id) _ t
          (cancel_found-Lands now id tenant (find_guest_current id t) t h))).keep
