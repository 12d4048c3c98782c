-- ===== src/Reservations/Nights.antt =====
-- No booked night without a stay: a night of property_availability that is booked does not belong to
-- a reservation that was cancelled, declined, missed or expired.
use gestion_alquileres_backe.Reservations.Admin.{set_reservation_status, release_nights}
use gestion_alquileres_backe.Reservations.Tables.{
  Night, Bookings, set_status, Reservation, release_night, is_booked, is_id,
}
use gestion_alquileres_backe.Reservations.Status.{
  ReservationStatus, cancelled, includes, expired, no_show, declined,
}
use gestion_alquileres_backe.Prelude.{
  List, Bool, All, ℕ, ◌∷◌, not, ◌≡◌, map, true, [], false, ◌&&◌, arith, Bool-cases, ◌==◌, inl, inr,
  refl,
}
pub mod Kept
pub mod Operations
pub mod Expired

abbrev released_statuses : List ReservationStatus
released_statuses = cancelled ∷ expired ∷ no_show ∷ declined ∷ []

abbrev pub is_released : ReservationStatus → Bool
is_released status = includes released_statuses status

-- the night is not booked by this reservation, or the reservation holds it
abbrev pub is_clean : Night → Reservation → Bool
is_clean n r = not (is_booked n.status && is_id r.id n.reservation_id && is_released r.status)

abbrev pub IsCleanOf : List Reservation → Night → Type 0
IsCleanOf rs n = All (λ r. is_clean n r ≡ true) rs

-- the invariant
abbrev pub HasCleanNights : Bookings → Type 0
HasCleanNights t = All (IsCleanOf t.reservations) t.nights

pub All-map :
    {A B : Type 0} (P : A → Type 0) (Q : B → Type 0) (f : A → B) (xs : List A)
    → ((x : A) → P x → Q (f x))
    → All P xs
    → All Q (map f xs)
All-map P Q f [] k h = tt
All-map P Q f (x ∷ xs) k h = (k x h.0, All-map P Q f xs k h.1)

pub All-weaken :
    {A : Type 0} (P Q : A → Type 0) (xs : List A) → ((x : A) → P x → Q x) → All P xs → All Q xs
All-weaken P Q [] k h = tt
All-weaken P Q (x ∷ xs) k h = (k x h.0, All-weaken P Q xs k h.1)

clean_held : (a b c : Bool) → c ≡ false → not (a && b && c) ≡ true
clean_held a b c h = ground arith

clean_apart : (a b c : Bool) → b && a ≡ false → not (a && b && c) ≡ true
clean_apart a b c h = ground arith

-- a status that holds its nights
hold :
    (status : ReservationStatus) (id : ℕ) (n : Night) (r : Reservation)
    → is_released status ≡ false
    → is_clean n r ≡ true
    → is_clean n (set_status status id r) ≡ true
unfolding set_status
hold status id n r s h = elim (Bool-cases (r.id == id)) [
  | inl same ↦
      rw same (clean_held (is_booked n.status) (is_id r.id n.reservation_id) (is_released status) s)
  | inr other ↦ rw other h
]

-- any status, with the nights released
free :
    (status : ReservationStatus) (id : ℕ) (n : Night) (r : Reservation)
    → is_clean n r ≡ true
    → is_clean (release_night id n) (set_status status id r) ≡ true
unfolding set_status release_night
free status id n r h = elim (Bool-cases (is_id id n.reservation_id && is_booked n.status)) [
  | inl mine ↦ rw mine refl
  | inr theirs ↦ elim (Bool-cases (r.id == id)) [
    | inl same ↦
        let e : r.id ≡ id = ground arith in
        rw (theirs, same)
          (clean_apart (is_booked n.status) (is_id r.id n.reservation_id) (is_released status)
            (rw e theirs))
    | inr other ↦ rw (theirs, other) h
  ]
]

pub hold-HasCleanNights :
    (status : ReservationStatus) (id : ℕ) (t : Bookings)
    → is_released status ≡ false
    → HasCleanNights t
    → HasCleanNights (set_reservation_status status id t)
unfolding set_reservation_status
hold-HasCleanNights status id t s h =
    All-weaken _ _ t.nights
      (λ n. All-map _ _ (set_status status id) t.reservations (λ r. hold status id n r s)) h

pub free-HasCleanNights :
    (status : ReservationStatus) (id : ℕ) (t : Bookings)
    → HasCleanNights t
    → HasCleanNights (release_nights id (set_reservation_status status id t))
unfolding set_reservation_status release_nights
free-HasCleanNights status id t h =
    All-map _ _ (release_night id) t.nights
      (λ n. All-map _ _ (set_status status id) t.reservations (λ r. free status id n r)) h
