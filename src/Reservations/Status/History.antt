-- ===== src/Reservations/Status/History.antt =====
-- What the table of transitions says of a reservation's life.
use gestion_alquileres_backe.Prelude.{ℕ, ◌<◌, ◌+◌, ◌≡◌, suc, ◌≤◌, true, arith}
use gestion_alquileres_backe.Reservations.Status.{
  ReservationStatus, ReservationAction, includes, pending_payment, reservation_transitions, pending,
  confirmed, in_progress, terminal_reservation_statuses, confirm, decline, cancel, check_in,
  no_show_action, complete,
}

-- how far the life of a reservation has come
abbrev stage : ReservationStatus → ℕ
stage pending_payment = 0
stage pending = 0
stage confirmed = 1
stage in_progress = 2
stage _ = 3

-- a row of the table, from one of its sources
abbrev pub Allowed : ReservationAction → ReservationStatus → Type 0
Allowed a s = includes (reservation_transitions a).from s ≡ true

-- Histories of a reservation under the actions of administrators, with their number.
pub data History : ReservationStatus → ReservationStatus → ℕ → Type 0 where
  created : (s : ReservationStatus) → History s s 0
  acted :
      {s t : ReservationStatus} {n : ℕ} (a : ReservationAction)
      → History s t n
      → Allowed a t
      → History s (reservation_transitions a).to (suc n)

advances :
    (a : ReservationAction) (s : ReservationStatus)
    → Allowed a s
    → stage s < stage (reservation_transitions a).to
advances confirm s h = ground arith
advances decline s h = ground arith
advances cancel s h = ground arith
advances check_in s h = ground arith
advances no_show_action s h = ground arith
advances complete s h = ground arith

bounded : {s t : ReservationStatus} {n : ℕ} → History s t n → stage s + n ≤ stage t
bounded (created s) = omega arith
bounded (acted {t} a h ok) = omega (arith, bounded h, advances a t ok)

stage_le : (s : ReservationStatus) → stage s ≤ 3
stage_le s = ground arith

stage-terminal :
    (s : ReservationStatus) → includes terminal_reservation_statuses s ≡ true → stage s ≡ 3
stage-terminal s h = ground arith

-- A history has at most three actions, and the three lead to the end of the stay: no reservation
-- is acted on for ever, and none leaves a terminal status.
pub few_actions :
    {s t : ReservationStatus} {n : ℕ}
    → History s t n
    → (n ≤ 3) × (includes terminal_reservation_statuses s ≡ true → n ≡ 0)
few_actions {s} {t} h = (
  omega (arith, bounded h, stage_le t),
  (λ e. omega (arith, bounded h, stage_le t, stage-terminal s e)),
)
