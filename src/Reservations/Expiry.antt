-- ===== src/Reservations/Expiry.antt =====
-- src/reservations/reservation-expiry.service.ts, `expireForSchema`: holds that ran out, in one
-- statement with two updates.
use gestion_alquileres_backe.Transaction.{Action, query}
use gestion_alquileres_backe.Reservations.Status.{pending, includes, expired, pending_payment}
use gestion_alquileres_backe.Prelude.Int.{ℤ, leb_ℤ, ◌+ℤ◌, pos}
use gestion_alquileres_backe.Reservations.Tables.{
  Reservation, Night, is_id, Bookings, ReservationError, is_booked, available,
}
use gestion_alquileres_backe.Prelude.{
  ℕ, List, ◌*◌, Bool, if◌then◌else◌, ◌∷◌, any, filter_by, not, ◌&&◌, ◌==◌, [], map, none, some,
}

abbrev pub ms_per_hour : ℕ
ms_per_hour = 1000 * 60 * 60

-- `COALESCE(expires_at, created_at + INTERVAL '24 hours')`
unfoldable pub deadline : Reservation → ℤ
deadline r = elim r.expires_at [ none ↦ r.created_at +ℤ pos (24 * ms_per_hour) | some time ↦ time ]

-- `status IN ('pending', 'pending_payment') AND … <= NOW()`
unfoldable pub is_stale : ℤ → Reservation → Bool
unfolding deadline
is_stale now r = includes (pending ∷ pending_payment ∷ []) r.status && leb_ℤ (deadline r) now

unfoldable pub expire : ℤ → Reservation → Reservation
unfolding is_stale
expire now r = if is_stale now r then record r { status = expired } else r

-- `WHERE pa.reservation_id = e.id AND pa.status = 'booked'`, for any of the expired
unfoldable pub release_of : List Reservation → Night → Night
release_of gone n =
    if any (λ r. is_id r.id n.reservation_id) gone && is_booked n.status
    then record n { status = available; reservation_id = none }
    else n

-- `dedupeById`: the first row of each id
unfoldable pub dedupe_by_id : List Reservation → List Reservation
dedupe_by_id [] = []
dedupe_by_id (r ∷ rs) = r ∷ filter_by (λ (x : Reservation). not (x.id == r.id)) (dedupe_by_id rs)

unfoldable pub expire_for_schema : ℤ → Action Bookings ReservationError (List Reservation)
unfolding is_stale expire
expire_for_schema now = query (λ t.
    let gone = filter_by (is_stale now) t.reservations in
    (
      dedupe_by_id gone,
      record t {
        reservations = map (expire now) t.reservations;
        nights = map (release_of gone) t.nights;
      },
    ))
