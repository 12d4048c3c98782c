-- ===== src/Reservations/Claim/Booked.antt =====
-- Who holds a night: a claim takes none that is booked, and a claim that returns has all of them.
use gestion_alquileres_backe.Transaction.Commit.{
  query-Keeps, query->>=-Lands, throw_when-Lands, landed_ok,
}
use gestion_alquileres_backe.Transaction.Rules.{>>=-Keeps, throw_when-Keeps}
use gestion_alquileres_backe.Transaction.{Session, throw_when}
use gestion_alquileres_backe.Reservations.Tables.{
  Night, is_booked, AvailabilityStatus, booked, available, blocked, Bookings, conflict,
}
use gestion_alquileres_backe.Reservations.Claim.{
  claim_night, is_night_of, is_available, claim_nights, claim_nights_or_fail,
}
use gestion_alquileres_backe.Prelude.{
  ℕ, List, Option, ◌≡◌, ◌≤◌, none, some, ◌∷◌, arith, if◌then◌else◌, [], Bool, Bool-cases, true, inl,
  false, inr, refl, length, All, ok, not, ◌==◌,
}

-- the reservation that has booked the unit on the date
unfoldable pub booked_by : ℕ → ℕ → List Night → Option ℕ
booked_by unit date [] = none
booked_by unit date (n ∷ ns) =
    if is_night_of unit date n
    then (if is_booked n.status then n.reservation_id else none)
    else booked_by unit date ns

available_not_booked :
    (status : AvailabilityStatus) → is_available status ≡ true → is_booked status ≡ false
available_not_booked available h = refl
available_not_booked blocked h = refl
available_not_booked booked h = cc

same_night_id :
    (unit date : ℕ)
    → is_night_of unit date (record {
      property_id = 0;
      unit_id = unit;
      date = date;
      status = booked;
      reservation_id = none;
    })
      ≡ true
same_night_id unit date = ground arith

claim_night-keeps :
    (property unit id date u d : ℕ) (ns : List Night) (r : ℕ)
    → booked_by u d ns ≡ some r
    → booked_by u d (claim_night property unit id date ns).nights ≡ some r
unfolding claim_night booked_by
claim_night-keeps property unit id date u d [] r h = cc
claim_night-keeps property unit id date u d (n ∷ ns) r h =
    elim (Bool-cases (is_night_of unit date n)) [
      | inl mine ↦ elim (Bool-cases (is_available n.status)) [
        | inl free ↦
            rw (mine, free)
              (fresh (is_night_of u d n) (is_booked n.status) n.reservation_id (booked_by u d ns)
                (available_not_booked n.status free) h)
        | inr taken ↦ rw (mine, taken) h
      ]
      | inr other ↦ rw other (
          next (is_night_of u d n) (is_booked n.status) n.reservation_id
            (claim_night-keeps property unit id date u d ns r) h)
    ]
  where
    fresh :
        (b c : Bool) (x y : Option ℕ)
        → c ≡ false
        → (if b then (if c then x else none) else y) ≡ some r
        → (if b then some id else y) ≡ some r
    fresh true true x y e h = cc
    fresh true false x y e h = cc
    fresh false c x y e h = h

    next :
        (b c : Bool) (x : Option ℕ) {y z : Option ℕ}
        → (y ≡ some r → z ≡ some r)
        → (if b then (if c then x else none) else y) ≡ some r
        → (if b then (if c then x else none) else z) ≡ some r
    next true c x k h = h
    next false c x k h = k h

claim_night-books :
    (property unit id date : ℕ) (ns : List Night)
    → ((claim_night property unit id date ns).written ≤ 1)
      × ((claim_night property unit id date ns).written ≡ 1
          → booked_by unit date (claim_night property unit id date ns).nights ≡ some id)
unfolding claim_night booked_by
claim_night-books property unit id date [] = (omega arith, λ h. rw (same_night_id unit date) refl)
claim_night-books property unit id date (n ∷ ns) = elim (Bool-cases (is_night_of unit date n)) [
  | inl mine ↦ elim (Bool-cases (is_available n.status)) [
    | inl free ↦ rw (mine, free) (omega arith, λ h. rw mine refl)
    | inr taken ↦ rw (mine, taken) (omega arith, λ h. absurd (omega arith))
  ]
  | inr other ↦ rw other (
    (claim_night-books property unit id date ns).0,
    λ h. rw other ((claim_night-books property unit id date ns).1 h),
  )
]

claim_nights-keeps :
    (property unit id : ℕ) (dates : List ℕ) (u d : ℕ) (ns : List Night) (r : ℕ)
    → booked_by u d ns ≡ some r
    → booked_by u d (claim_nights property unit id dates ns).nights ≡ some r
unfolding claim_nights
claim_nights-keeps property unit id [] u d ns r h = h
claim_nights-keeps property unit id (x ∷ xs) u d ns r h =
    claim_nights-keeps property unit id xs u d (claim_night property unit id x ns).nights r
      (claim_night-keeps property unit id x u d ns r h)

written_le :
    (property unit id : ℕ) (dates : List ℕ) (ns : List Night)
    → (claim_nights property unit id dates ns).written ≤ length dates
unfolding claim_nights
written_le property unit id [] ns = omega arith
written_le property unit id (x ∷ xs) ns = omega (
  arith,
  (claim_night-books property unit id x ns).0,
  written_le property unit id xs (claim_night property unit id x ns).nights,
)

claim_nights-books :
    (property unit id : ℕ) (dates : List ℕ) (ns : List Night)
    → (claim_nights property unit id dates ns).written ≡ length dates
    → All (λ d. booked_by unit d (claim_nights property unit id dates ns).nights ≡ some id) dates
unfolding claim_nights
claim_nights-books property unit id [] ns h = tt
claim_nights-books property unit id (x ∷ xs) ns h =
    let one = claim_night property unit id x ns in
    let (le, books) = claim_night-books property unit id x ns in
    let rest_le = written_le property unit id xs one.nights in
    (
      claim_nights-keeps property unit id xs unit x one.nights id
          (books (omega (arith, le, rest_le, h))),
      claim_nights-books property unit id xs one.nights (omega (arith, le, rest_le, h)),
    )

-- A claim of nights, on every outcome, leaves each booked night to the reservation that had booked
-- it: no night is sold twice.
pub claim_never_rebooks :
    (property unit id : ℕ) (dates : List ℕ) (u d r : ℕ) (s : Session Bookings)
    → booked_by u d s.store.nights ≡ some r
    → booked_by u d (claim_nights_or_fail property unit dates id s).1.store.nights ≡ some r
unfolding claim_nights_or_fail
claim_never_rebooks property unit id dates u d r =
    (>>=-Keeps {P = λ (t : Bookings). booked_by u d t.nights ≡ some r}
      (query-Keeps _ (λ t. claim_nights-keeps property unit id dates u d t.nights r))
      (λ claimed. throw_when-Keeps _ conflict)).keep

counted : (m n : ℕ) → not (m == n) ≡ false → m ≡ n
counted m n h = ground arith

-- A claim that returns has booked every one of its nights for the reservation.
pub claim_takes_each :
    (property unit id : ℕ) (dates : List ℕ) (s : Session Bookings)
    → (claim_nights_or_fail property unit dates id s).0 ≡ ok tt
    → All
        (λ d.
          booked_by unit d (claim_nights_or_fail property unit dates id s).1.store.nights ≡ some id)
        dates
unfolding claim_nights_or_fail
claim_takes_each property unit id dates s h =
    let c = claim_nights property unit id dates s.store.nights in
    let l =
      query->>=-Lands _ (λ claimed. throw_when (not (claimed == length dates)) conflict) s.store
        (throw_when-Lands
          {P = λ (t : Bookings). All (λ d. booked_by unit d t.nights ≡ some id) dates} _ conflict _
          (λ g.
            claim_nights-books property unit id dates s.store.nights
              (counted c.written (length dates) g))) in
    landed_ok _ _ tt (l.lands s refl) h
