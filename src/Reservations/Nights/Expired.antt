-- ===== src/Reservations/Nights/Expired.antt =====
-- The expiry of holds: a reservation that ran out leaves no booked night behind.
use gestion_alquileres_backe.Transaction.Commit.{query-Keeps}
use gestion_alquileres_backe.Transaction.{Session}
use gestion_alquileres_backe.Reservations.Nights.{
  is_clean, All-weaken, HasCleanNights, IsCleanOf, All-map,
}
use gestion_alquileres_backe.Prelude.{
  List, Bool, filter_by, All, any, ◌&&◌, ◌≡◌, ◌∷◌, true, Bool-cases, [], inl, inr, refl, arith,
  false, not, map,
}
use gestion_alquileres_backe.Reservations.Expiry.{expire, release_of, is_stale, expire_for_schema}
use gestion_alquileres_backe.Prelude.Int.{ℤ}
use gestion_alquileres_backe.Reservations.Tables.{Night, Reservation, is_id, is_booked, Bookings}

abbrev holds_of : Night → List Reservation → Bool
holds_of n = any (λ (x : Reservation). is_id x.id n.reservation_id)

-- the night's reservation is among those that expire
abbrev IsGoneOf : ℤ → Night → List Reservation → Reservation → Type 0
IsGoneOf now n gone r =
    is_stale now r && is_id r.id n.reservation_id ≡ true → holds_of n gone ≡ true

gone_later :
    (now : ℤ) (n : Night) (x : Reservation) (rs : List Reservation)
    → holds_of n (filter_by (is_stale now) rs) ≡ true
    → holds_of n (filter_by (is_stale now) (x ∷ rs)) ≡ true
gone_later now n x rs h = elim (Bool-cases (is_stale now x)) [
  | inl stale ↦
      rw (filter_by, stale)
        (elim (Bool-cases (is_id x.id n.reservation_id)) [
          | inl mine ↦ rw (any, mine) refl
          | inr other ↦ rw (any, other) h
        ])
  | inr fresh ↦ rw (filter_by, fresh) h
]

gone_now :
    (now : ℤ) (n : Night) (r : Reservation) (rs : List Reservation)
    → IsGoneOf now n (filter_by (is_stale now) (r ∷ rs)) r
gone_now now n r rs h =
    let stale : is_stale now r ≡ true = ground arith in
    let mine : is_id r.id n.reservation_id ≡ true = ground arith in
    rw (filter_by, stale) (rw (any, mine) refl)

each_gone :
    (now : ℤ) (n : Night) (rs : List Reservation)
    → All (IsGoneOf now n (filter_by (is_stale now) rs)) rs
each_gone now n [] = tt
each_gone now n (r ∷ rs) = (
  gone_now now n r rs,
  All-weaken _ _ rs (λ x k h. gone_later now n r rs (k h)) (each_gone now n rs),
)

apart : (a b c : Bool) → a && b ≡ false → (c ≡ true → a ≡ true) → b && c ≡ false
apart a b false h k = ground arith
apart a b true h k = ground (arith, k refl)

not_both : (a b c : Bool) → a && b ≡ false → not (a && b && c) ≡ true
not_both a b c h = ground arith

expired_night :
    (now : ℤ) (gone : List Reservation) (n : Night) (r : Reservation)
    → IsGoneOf now n gone r
    → is_clean n r ≡ true
    → is_clean (release_of gone n) (expire now r) ≡ true
unfolding expire release_of
expired_night now gone n r k h = elim (Bool-cases (holds_of n gone && is_booked n.status)) [
  | inl mine ↦ rw mine refl
  | inr theirs ↦ elim (Bool-cases (is_stale now r)) [
    | inl stale ↦
        let e : is_booked n.status && is_id r.id n.reservation_id ≡ false =
          apart (holds_of n gone) (is_booked n.status) (is_id r.id n.reservation_id) theirs
            (λ q. k (rw (stale, q) refl)) in
        rw (theirs, stale) (not_both (is_booked n.status) (is_id r.id n.reservation_id) true e)
    | inr fresh ↦ rw (theirs, fresh) h
  ]
]

expired_nights :
    (now : ℤ) (gone : List Reservation) (n : Night) (rs : List Reservation)
    → All (IsGoneOf now n gone) rs
    → IsCleanOf rs n
    → IsCleanOf (map (expire now) rs) (release_of gone n)
expired_nights now gone n [] g h = tt
expired_nights now gone n (r ∷ rs) g h =
    (expired_night now gone n r g.0 h.0, expired_nights now gone n rs g.1 h.1)

-- When holds run out, no booked night stays with a reservation that expired, nor with one that was
-- cancelled, declined or missed before.
pub expire_for_schema_keeps_nights :
    (now : ℤ) (s : Session Bookings)
    → HasCleanNights s.store
    → HasCleanNights (expire_for_schema now s).1.store
unfolding expire_for_schema
expire_for_schema_keeps_nights now =
    (query-Keeps _ (λ t h.
      All-map _ _ (release_of (filter_by (is_stale now) t.reservations)) t.nights
        (λ n c.
          expired_nights now (filter_by (is_stale now) t.reservations) n t.reservations
            (each_gone now n t.reservations) c)
        h)).keep
