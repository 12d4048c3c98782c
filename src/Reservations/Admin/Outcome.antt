-- ===== src/Reservations/Admin/Outcome.antt =====
-- What `transition` does to reservations and nights, on the branches of its guards.
use mathlib.Core.Bool.{false}
use gestion_alquileres_backe.Transaction.Commit.{
  Lands, throw-Lands, landed_ok, transaction-Lands, update->>-Lands, throw_when->>-Lands,
  select->>=-Lands, Keeps→Lands, pure->>-Lands, transaction-rolls_back-Yields, throw_when->>-Yields,
}
use gestion_alquileres_backe.Transaction.Rules.{
  Keeps, >>-Keeps, pure-Keeps, NoFaults, Yields, >>=-Yields, select-Yields, throw-Yields,
}
use gestion_alquileres_backe.Transaction.{Session, ◌>>◌, update, pure, thrown}
use gestion_alquileres_backe.Reservations.Nights.Kept.{
  IgnoresMoney, apply_refund_for_action-Keeps, create_turnover-Keeps,
}
use gestion_alquileres_backe.Reservations.Admin.{
  set_reservation_status, apply_transition, transition, Current, release_nights, find_current,
  apply_refund_for_action, create_turnover_cleaning_order,
}
use gestion_alquileres_backe.Reservations.Tables.{
  Bookings, Night, release_night, not_found, set_status, conflict, ReservationError,
}
use gestion_alquileres_backe.Reservations.Status.{
  ReservationAction, ReservationStatus, includes, reservation_transitions,
}
use gestion_alquileres_backe.Money.Decimal.{DecimalLib}
use gestion_alquileres_backe.Prelude.{
  Bool, ℕ, List, if◌then◌else◌, ◌≡◌, map, ◌∷◌, ok, true, [], refl, not, err, Option, some, none,
}

not-false : (b : Bool) → not b ≡ false → b ≡ true
not-false true h = refl
not-false false h = cc

-- the nights after a transition
abbrev nights_after : Bool → ℕ → List Night → List Night
nights_after releases id nights = if releases then map (release_night id) nights else nights

-- From `t` to `t'` the action was applied to a reservation that was in one of its sources.
pub record Applied (id : ℕ) (action : ReservationAction) (t t' : Bookings) : Type 0 where
  pub current : Current
  pub others : List Current
  pub found : find_current id t ≡ current ∷ others
  pub from_source : includes (reservation_transitions action).from current.row.status ≡ true
  pub reservations :
      t'.reservations ≡ map (set_status (reservation_transitions action).to id) t.reservations
  pub nights :
      t'.nights ≡ nights_after (reservation_transitions action).releases_availability id t.nights

Applied-IgnoresMoney :
    (id : ℕ) (action : ReservationAction) (t : Bookings) → IgnoresMoney (Applied id action t)
Applied-IgnoresMoney id action t x rows payments orders h = record {
  current = h.current;
  others = h.others;
  found = h.found;
  from_source = h.from_source;
  reservations = h.reservations;
  nights = h.nights;
}

module _ ⦃dec : DecimalLib⦄ where
  rest-Keeps :
      (P : Bookings → Type 0)
      → IgnoresMoney P
      → (id : ℕ) (action : ReservationAction) (c : Current) (admin : ℕ) (b : Bool)
      → Keeps P (
          apply_refund_for_action id action c admin
          >> (if b then create_turnover_cleaning_order id c.row admin else pure tt))
  rest-Keeps P i id action c admin true =
      >>-Keeps (apply_refund_for_action-Keeps P i id action c admin)
        (create_turnover-Keeps P i id c.row admin)
  rest-Keeps P i id action c admin false =
      >>-Keeps (apply_refund_for_action-Keeps P i id action c admin) (pure-Keeps tt)

  -- behind the guard
  body-Lands :
      (id : ℕ) (action : ReservationAction) (c : Current) (admin : ℕ) (releases done : Bool)
      (to : ReservationStatus) (P : Bookings → Type 0) (t : Bookings)
      → IgnoresMoney P
      → P (
          if releases
          then release_nights id (set_reservation_status to id t)
          else set_reservation_status to id t)
      → Lands t
          (update (set_reservation_status to id)
            >> ((if releases then update (release_nights id) else pure tt)
                >> (apply_refund_for_action id action c admin
                    >> (if done then create_turnover_cleaning_order id c.row admin else pure tt))))
          P
  body-Lands id action c admin true done to P t i h =
      update->>-Lands (set_reservation_status to id) _ t (
        update->>-Lands (release_nights id) _ _
          (Keeps→Lands _ _ h (rest-Keeps P i id action c admin done)))
  body-Lands id action c admin false done to P t i h =
      update->>-Lands (set_reservation_status to id) _ t
        (pure->>-Lands _ _ (Keeps→Lands _ _ h (rest-Keeps P i id action c admin done)))

  applied :
      (id : ℕ) (action : ReservationAction) (c : Current) (cs : List Current) (t : Bookings)
      → find_current id t ≡ c ∷ cs
      → includes (reservation_transitions action).from c.row.status ≡ true
      → (releases : Bool) → (reservation_transitions action).releases_availability ≡ releases
      → let to = (reservation_transitions action).to in
        Applied id action t (
          if releases
          then release_nights id (set_reservation_status to id t)
          else set_reservation_status to id t)
  unfolding set_reservation_status release_nights
  applied id action c cs t f s true e = record {
    current = c;
    others = cs;
    found = f;
    from_source = s;
    reservations = refl;
    nights = rw e refl;
  }
  applied id action c cs t f s false e = record {
    current = c;
    others = cs;
    found = f;
    from_source = s;
    reservations = refl;
    nights = rw e refl;
  }

  apply_transition-Applied :
      (id : ℕ) (action : ReservationAction) (admin : ℕ) (current : List Current) (t : Bookings)
      → find_current id t ≡ current
      → Lands t (apply_transition id action admin current) (Applied id action t)
  unfolding apply_transition
  apply_transition-Applied id action admin [] t f = throw-Lands not_found t
  apply_transition-Applied id action admin (c ∷ cs) t f = throw_when->>-Lands _ conflict _ t (λ g.
      body-Lands id action c admin (reservation_transitions action).releases_availability _
        (reservation_transitions action).to (Applied id action t) t
        (Applied-IgnoresMoney id action t)
        (applied id action c cs t f (not-false _ g)
          (reservation_transitions action).releases_availability refl))

  -- A transition that returns was made from a status that the table names for the action, and gives
  -- the reservation the status of the table and nothing else in reservations; its nights are free
  -- again exactly when the table says so.
  pub transition_follows_table :
      (id : ℕ) (action : ReservationAction) (admin : ℕ) (s : Session Bookings)
      → (transition id action admin s).0 ≡ ok tt
      → Applied id action s.store (transition id action admin s).1.store
  unfolding transition
  transition_follows_table id action admin s h =
      landed_ok (Applied id action s.store) _ tt
        ((transaction-Lands _ s.store (
            select->>=-Lands (find_current id) _ s.store (
              apply_transition-Applied id action admin (find_current id s.store) s.store
                refl))).lands
          s refl)
        h

  -- what the guards of `transition` object to, in the rows that were found
  abbrev pub objection : ReservationAction → List Current → Option ReservationError
  objection action [] = some not_found
  objection action (c ∷ cs) =
      if includes (reservation_transitions action).from c.row.status then none else some conflict

  -- what the guard's test and the objection say of each other
  objected :
      (b : Bool) {e : ReservationError}
      → (if b then none else some conflict) ≡ some e
      → (b ≡ false) × (e ≡ conflict)
  objected true h = cc
  objected false h = (refl, cc)

  apply_transition-refuses :
      (id : ℕ) (action : ReservationAction) (admin : ℕ) (current : List Current) (t : Bookings)
      (e : ReservationError)
      → objection action current ≡ some e
      → Yields (apply_transition id action admin current) t (err (thrown e)) t
  unfolding apply_transition
  apply_transition-refuses id action admin [] t e h =
      let q : e ≡ not_found = cc in rw q (throw-Yields not_found t)
  apply_transition-refuses id action admin (c ∷ cs) t e h =
      let (bad, q) = objected (includes (reservation_transitions action).from c.row.status) h in
      rw (bad, q) (throw_when->>-Yields conflict _ t)

  -- A transition of a reservation that does not exist is refused as not found, and one that the
  -- table does not allow from the reservation's status as a conflict; when no query fails, every
  -- table is as it was.
  pub transition_refuses :
      (id : ℕ) (action : ReservationAction) (admin : ℕ) (s : Session Bookings)
      (e : ReservationError)
      → NoFaults s
      → objection action (find_current id s.store) ≡ some e
      → ((transition id action admin s).0 ≡ err (thrown e))
        × ((transition id action admin s).1.store ≡ s.store)
  unfolding transition
  transition_refuses id action admin s e faultless h =
      let y = transaction-rolls_back-Yields (
        >>=-Yields (apply_transition id action admin) (select-Yields (find_current id) s.store)
          (apply_transition-refuses id action admin (find_current id s.store) s.store e h)) in
      (y.result s refl faultless, y.store s refl faultless)
