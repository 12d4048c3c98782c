-- ===== src/Reservations/Claim.antt =====
-- src/reservations/reservations.service.ts, `claimNightsOrFail`: the nights of a new reservation, one
-- row of property_availability for each unit and date.
use gestion_alquileres_backe.Transaction.{Action, ◌>>=◌, query, throw_when}
use gestion_alquileres_backe.Reservations.Tables.{
  AvailabilityStatus, Night, booked, Bookings, available, ReservationError, conflict,
}
use gestion_alquileres_backe.Prelude.{
  List, ℕ, Bool, Option, true, ◌==◌, ◌∷◌, false, ◌&&◌, some, ◌+◌, if◌then◌else◌, [], not, length,
}
pub mod Booked

-- a row, and whether the statement wrote it
pub record Claimed : Type 0 where
  pub nights : List Night
  pub written : ℕ

abbrev pub is_available : AvailabilityStatus → Bool
is_available available = true
is_available _ = false

-- the row of the unit and the date
abbrev pub is_night_of : ℕ → ℕ → Night → Bool
is_night_of unit date n = n.unit_id == unit && n.date == date

-- `INSERT … ON CONFLICT (unit_id, date) DO UPDATE … WHERE status = 'available'`, for one date
unfoldable pub claim_night : ℕ → ℕ → ℕ → ℕ → List Night → Claimed
claim_night property unit id date [] = record {
  nights =
      record {
        property_id = property;
        unit_id = unit;
        date = date;
        status = booked;
        reservation_id = some id;
      }
      ∷ [];
  written = 1;
}
claim_night property unit id date (n ∷ ns) =
    let rest = claim_night property unit id date ns in
    if is_night_of unit date n
    then (if is_available n.status
        then record {
          nights = record n { status = booked; reservation_id = some id } ∷ ns;
          written = 1;
        }
        else record { nights = n ∷ ns; written = 0 })
    else record rest { nights = n ∷ rest.nights }

-- the dates in their order
unfoldable pub claim_nights : ℕ → ℕ → ℕ → List ℕ → List Night → Claimed
claim_nights property unit id [] nights = record { nights = nights; written = 0 }
claim_nights property unit id (d ∷ ds) nights =
    let one = claim_night property unit id d nights in
    let rest = claim_nights property unit id ds one.nights in
    record rest { written = one.written + rest.written }

-- `claimNightsOrFail`
unfoldable pub claim_nights_or_fail :
    ℕ → ℕ → List ℕ → ℕ → Action Bookings ReservationError (Unit {0})
claim_nights_or_fail property unit dates id = do
  claimed ← query (λ t.
      let c = claim_nights property unit id dates t.nights in
      (c.written, record t { nights = c.nights }))
  throw_when (not (claimed == length dates)) conflict
