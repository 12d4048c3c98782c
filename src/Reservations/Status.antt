-- ===== src/Reservations/Status.antt =====
-- src/reservations/enums/reservation-status.enum.ts and reservation-action.enum.ts: the life cycle of
-- a reservation, as a status, the actions of an administrator and the table of transitions.
use gestion_alquileres_backe.Prelude.{ℕ, Bool, List, ◌∷◌, ◌==◌, any, [], false, true}
pub mod History

pub data ReservationStatus : Type 0 where
  pending_payment pending confirmed in_progress completed cancelled : ReservationStatus
  expired no_show declined : ReservationStatus

-- `===` of two statuses, by their place in the enum
abbrev pub status_index : ReservationStatus → ℕ
status_index pending_payment = 0
status_index pending = 1
status_index confirmed = 2
status_index in_progress = 3
status_index completed = 4
status_index cancelled = 5
status_index expired = 6
status_index no_show = 7
status_index declined = 8

abbrev pub status_eq : ReservationStatus → ReservationStatus → Bool
status_eq a b = status_index a == status_index b

-- `statuses.includes(status)`
abbrev pub includes : List ReservationStatus → ReservationStatus → Bool
includes statuses status = any (status_eq status) statuses

abbrev pub occupying_reservation_statuses : List ReservationStatus
occupying_reservation_statuses = pending_payment ∷ pending ∷ confirmed ∷ in_progress ∷ []

abbrev pub terminal_reservation_statuses : List ReservationStatus
terminal_reservation_statuses = completed ∷ cancelled ∷ expired ∷ no_show ∷ declined ∷ []

pub data ReservationAction : Type 0 where
  confirm decline cancel check_in no_show_action complete : ReservationAction

pub record ReservationTransition : Type 0 where
  pub from : List ReservationStatus
  pub to : ReservationStatus
  pub releases_availability : Bool

-- `RESERVATION_TRANSITIONS[action]`
abbrev pub reservation_transitions : ReservationAction → ReservationTransition
reservation_transitions confirm = record {
  from = pending ∷ [];
  to = confirmed;
  releases_availability = false;
}
reservation_transitions decline = record {
  from = pending ∷ [];
  to = declined;
  releases_availability = true;
}
reservation_transitions cancel = record {
  from = pending_payment ∷ pending ∷ confirmed ∷ [];
  to = cancelled;
  releases_availability = true;
}
reservation_transitions check_in = record {
  from = confirmed ∷ [];
  to = in_progress;
  releases_availability = false;
}
reservation_transitions no_show_action = record {
  from = confirmed ∷ [];
  to = no_show;
  releases_availability = true;
}
reservation_transitions complete = record {
  from = in_progress ∷ [];
  to = completed;
  releases_availability = false;
}
