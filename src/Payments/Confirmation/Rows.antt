-- ===== src/Payments/Confirmation/Rows.antt =====
-- The update of src/payments/reservation-payment-confirmation.service.ts changes the one row of its
-- reservation.
use gestion_alquileres_backe.Reservations.Status.{confirmed}
use gestion_alquileres_backe.Payments.Confirmation.{
  find_payable, confirm_row, confirm_rows, is_confirmable, is_unpaid,
}
use gestion_alquileres_backe.Reservations.Tables.{Reservation, Bookings}
use gestion_alquileres_backe.Prelude.{
  ℕ, if◌then◌else◌, List, Bool, some, ◌==◌, map, filter_by, length, ◌≡◌, true, false, ◌∷◌, ◌≤◌,
  none, ap, suc, refl, ◌∙◌, ◌≢◌, arith, Bool-cases, inl, sym, inr, [],
}
use mathlib.Core.Path.{subst}

abbrev pub as_confirmed : ℕ → Reservation → Reservation
as_confirmed id r = if r.id == id then record r { status = confirmed; expires_at = none } else r

-- the reservation is confirmed, and nothing else changes
unfoldable pub confirmed_in : ℕ → Bookings → Bookings
confirmed_in id t = record t { reservations = map (as_confirmed id) t.reservations }

-- the rows of a number
abbrev pub with_id : ℕ → List Reservation → List Reservation
with_id id rs = filter_by (λ (r : Reservation). r.id == id) rs

record IsUpdated (id n : ℕ) (rs : List Reservation) : Type 0 where
  rows : length (filter_by (is_confirmable id) rs) ≡ n
  same : map (confirm_row id) rs ≡ map (as_confirmed id) rs

kept_row :
    (p : Reservation → Bool) (x : Reservation) (rs : List Reservation)
    → p x ≡ true
    → filter_by p (x ∷ rs) ≡ x ∷ filter_by p rs
kept_row p x rs h = rw (h, filter_by) refl

dropped_row :
    (p : Reservation → Bool) (x : Reservation) (rs : List Reservation)
    → p x ≡ false
    → filter_by p (x ∷ rs) ≡ filter_by p rs
dropped_row p x rs h = rw (h, filter_by) refl

find_first :
    (id : ℕ) (x : Reservation) (rs : List Reservation)
    → x.id == id ≡ true
    → find_payable id (x ∷ rs) ≡ some x
unfolding find_payable
find_first id x rs h = rw h refl

find_later :
    (id : ℕ) (x : Reservation) (rs : List Reservation)
    → x.id == id ≡ false
    → find_payable id (x ∷ rs) ≡ find_payable id rs
unfolding find_payable
find_later id x rs h = rw h refl

-- a row of another number stays
other_row :
    (id n : ℕ) (x : Reservation) (rs : List Reservation)
    → x.id == id ≡ false
    → IsUpdated id n rs
    → IsUpdated id n (x ∷ rs)
unfolding confirm_row
other_row id n x rs h u = record {
  rows = ap length (dropped_row (is_confirmable id) x rs (rw h refl)) ∙ u.rows;
  same = rw h (ap (λ z. x ∷ z) u.same);
}

no_rows : (id : ℕ) (rs : List Reservation) → length (with_id id rs) ≡ 0 → IsUpdated id 0 rs
no_rows id [] h = record { rows = refl; same = refl }
no_rows id (x ∷ rs) h = elim (Bool-cases (x.id == id)) [
  | inl e ↦ absurd (some_rows (sym (ap length (kept_row (λ r. r.id == id) x rs e)) ∙ h))
  | inr e ↦
      other_row id 0 x rs e
        (no_rows id rs (sym (ap length (dropped_row (λ r. r.id == id) x rs e)) ∙ h))
]
  where
    some_rows : {n : ℕ} → suc n ≢ 0
    some_rows h = omega arith

found_first : (x r : Reservation) → some x ≡ some r → is_unpaid r ≡ true → is_unpaid x ≡ true
found_first x r h u = ap (λ o. elim o as (λ _. Bool) [ none ↦ true | some y ↦ is_unpaid y ]) h ∙ u

first_row :
    (id : ℕ) (x : Reservation) (rs : List Reservation)
    → length (with_id id (x ∷ rs)) ≤ 1
    → x.id == id ≡ true
    → is_unpaid x ≡ true
    → IsUpdated id 1 (x ∷ rs)
unfolding confirm_row
first_row id x rs h e v =
    let rest =
      no_rows id rs
        (rest_empty (subst (λ n. n ≤ 1) (ap length (kept_row (λ r. r.id == id) x rs e)) h)) in
    record {
      rows = ap length (kept_row (is_confirmable id) x rs (rw (e, v) refl)) ∙ ap suc rest.rows;
      same = ap (λ z. confirm_row id x ∷ z) rest.same ∙ ap (λ z. z ∷ map (as_confirmed id) rs) row;
    }
  where
    row : confirm_row id x ≡ as_confirmed id x
    row = rw (e, v) refl

    rest_empty : {n : ℕ} → suc n ≤ 1 → n ≡ 0
    rest_empty h = omega arith

one_row :
    (id : ℕ) (rs : List Reservation) (r : Reservation)
    → length (with_id id rs) ≤ 1
    → find_payable id rs ≡ some r
    → is_unpaid r ≡ true
    → IsUpdated id 1 rs
unfolding find_payable confirm_row
one_row id [] r h f u = absurd (none_found f)
  where
    none_found : none ≢ some r
    none_found e = cc
one_row id (x ∷ rs) r h f u = elim (Bool-cases (x.id == id)) [
  | inl e ↦ first_row id x rs h e (found_first x r (sym (find_first id x rs e) ∙ f) u)
  | inr e ↦ other_row id 1 x rs e (one_row id rs r (rest_few e) (sym (find_later id x rs e) ∙ f) u)
]
  where
    rest_few : x.id == id ≡ false → length (with_id id rs) ≤ 1
    rest_few e = subst (λ n. n ≤ 1) (ap length (dropped_row (λ r. r.id == id) x rs e)) h

pub confirm_rows_lem :
    (id : ℕ) (t : Bookings) (r : Reservation)
    → length (with_id id t.reservations) ≤ 1
    → find_payable id t.reservations ≡ some r
    → is_unpaid r ≡ true
    → confirm_rows id t ≡ (1, confirmed_in id t)
unfolding confirm_rows confirmed_in
confirm_rows_lem id t r h f u =
    let k = one_row id t.reservations r h f u in
    ap (λ n. (n, record t { reservations = map (confirm_row id) t.reservations })) k.rows
    ∙ ap (λ (rs : List Reservation). (1, record t { reservations = rs })) k.same
