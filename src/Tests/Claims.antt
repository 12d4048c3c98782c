-- ===== src/Tests/Claims.antt =====
-- Runs of `claimNightsOrFail`: the nights 15 and 16 of a unit whose night 14 is booked.
use gestion_alquileres_backe.Prelude.{All, [], false, ◌≡◌, ◌∷◌, some, refl, none, ok}
use gestion_alquileres_backe.Reservations.Claim.{claim_nights_or_fail, claim_nights, claim_night}
use gestion_alquileres_backe.Reservations.Claim.Booked.{
  booked_by, claim_never_rebooks, claim_takes_each,
}
use gestion_alquileres_backe.Transaction.{Session, query, throw_when, ◌>>=◌}
use gestion_alquileres_backe.Reservations.Tables.{Bookings, booked, available}

abbrev tables : Bookings
tables = record {
  reservations = [];
  nights =
      record { property_id = 2; unit_id = 3; date = 14; status = booked; reservation_id = some 1 }
      ∷ record {
        property_id = 2;
        unit_id = 3;
        date = 15;
        status = available;
        reservation_id = none;
      }
      ∷ [];
  payments = [];
  payment_refunds = [];
  cleaning_orders = [];
  units = [];
}

abbrev session : Session Bookings
session = record { store = tables; queries = 0; fails = λ n. false }

first_booked : booked_by 3 14 tables.nights ≡ some 1
unfolding booked_by
first_booked = refl

claim_never_rebooks_example :
    booked_by 3 14 (claim_nights_or_fail 2 3 (14 ∷ 15 ∷ []) 8 session).1.store.nights ≡ some 1
claim_never_rebooks_example = claim_never_rebooks 2 3 8 (14 ∷ 15 ∷ []) 3 14 1 session first_booked

returns : (claim_nights_or_fail 2 3 (15 ∷ 16 ∷ []) 8 session).0 ≡ ok tt
unfolding claim_nights_or_fail claim_nights claim_night query throw_when ◌>>=◌
returns = refl

claim_takes_each_example :
    All
      (λ d.
        booked_by 3 d (claim_nights_or_fail 2 3 (15 ∷ 16 ∷ []) 8 session).1.store.nights ≡ some 8)
      (15 ∷ 16 ∷ [])
claim_takes_each_example = claim_takes_each 2 3 8 (15 ∷ 16 ∷ []) session returns
