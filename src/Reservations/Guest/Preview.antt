-- ===== src/Reservations/Guest/Preview.antt =====
-- The refund that a guest is shown is the refund that the cancellation makes.
use gestion_alquileres_backe.Reservations.Refunds.{refund_absolute_amount}
use mathlib.Core.Path.{subst}
use gestion_alquileres_backe.Reservations.Cancellation.Laws.{refundable_amount_bounds}
use gestion_alquileres_backe.Transaction.Rules.{
  NoFaults, Yields, transaction-Yields, >>-Yields, >>=-Yields, throw_when-Yields, select-Yields,
  update-Yields,
}
use gestion_alquileres_backe.Transaction.{Session}
use gestion_alquileres_backe.Reservations.Status.{cancelled, includes}
use gestion_alquileres_backe.Money.Numeral.{cents, minus-cents, Decimal}
use gestion_alquileres_backe.Reservations.Admin.{release_nights, set_reservation_status}
use gestion_alquileres_backe.Money.Decimal.{DecimalLib}
use gestion_alquileres_backe.Reservations.Refunds.Totals.{
  IsCollected, collected, pos_of, Refunded, refund_absolute_amount-Yields,
}
use gestion_alquileres_backe.Reservations.Guest.{
  GuestCurrent, flat, join_unit, refundable_of, cancel_found, cancel_my_reservation,
  cancellation_preview, find_guest_current, policy_or_moderate, guest_cancelable_statuses,
}
use gestion_alquileres_backe.Reservations.Tables.{
  Bookings, Payment, Reservation, RentalUnit, approved_paid, approved_payments,
  reservation_cancellation, not_found, conflict,
}
use gestion_alquileres_backe.Reservations.Cancellation.{
  compute_cancellation_refund, refund_by_days, CancellationPolicy, flexible, moderate, strict,
  non_refundable,
}
use gestion_alquileres_backe.Prelude.Int.{sum_ℤ, ℤ, pos, add_pos, pos_part, ◌-ℤ◌}
use gestion_alquileres_backe.Prelude.{
  List, ℕ, All, ◌++◌, ◌∷◌, ◌≡◌, map, [], ◌≤◌, ap, filter_by, arith, ◌==◌, Bool-cases, inl, inr,
  refl, true, ◌-◌, some, ok, min, ◌∙◌, false,
}

All-append : {A : Type 0} (P : A → Type 0) (xs ys : List A) → All P xs → All P ys → All P (xs ++ ys)
All-append P [] ys h k = k
All-append P (x ∷ xs) ys h k = (h.0, All-append P xs ys h.1 k)

-- what the query says of the payments
abbrev TellsApproved : ℕ → Bookings → GuestCurrent → Type 0
TellsApproved id t c = c.approved ≡ approved_paid id t.payments

join_unit-TellsApproved :
    (id : ℕ) (t : Bookings) (r : Reservation)
    → (units : List RentalUnit) → r.id ≡ id
    → All (TellsApproved id t) (
        map
          (λ (u : RentalUnit). record {
            row = r;
            policy = u.cancellation_policy;
            approved = approved_paid r.id t.payments;
          })
          units)
join_unit-TellsApproved id t r [] e = tt
join_unit-TellsApproved id t r (u ∷ us) e =
    (ap (λ x. approved_paid x t.payments) e, join_unit-TellsApproved id t r us e)

flat-TellsApproved :
    (id : ℕ) (t : Bookings) (rs : List Reservation)
    → All (TellsApproved id t) (flat (join_unit t) (filter_by (λ (r : Reservation). r.id == id) rs))
unfolding flat join_unit
flat-TellsApproved id t [] = tt
flat-TellsApproved id t (r ∷ rs) = elim (Bool-cases (r.id == id)) [
  | inl same ↦
      rw (filter_by, same)
        (All-append (TellsApproved id t) _ _
          (join_unit-TellsApproved id t r (filter_by (λ u. u.id == r.unit_id) t.units)
            (ground arith))
          (flat-TellsApproved id t rs))
  | inr other ↦ rw (filter_by, other) (flat-TellsApproved id t rs)
]

sum_collected :
    (ps : List Payment)
    → All IsCollected ps
    → sum_ℤ (map (λ (p : Payment). p.amount) ps) ≡ pos (collected ps)
unfolding sum_ℤ
sum_collected [] h = refl
sum_collected (p ∷ ps) h =
    rw (pos_of p.amount h.0, sum_collected ps h.1) (add_pos (pos_part p.amount) (collected ps))

percentage_le :
    (policy : CancellationPolicy) (checkin now : ℤ)
    → (compute_cancellation_refund policy checkin now).refund_percentage ≤ 100
unfolding compute_cancellation_refund refund_by_days
percentage_le flexible checkin now = ground arith
percentage_le moderate checkin now = ground arith
percentage_le strict checkin now = ground arith
percentage_le non_refundable checkin now = ground arith

module _ ⦃dec : DecimalLib⦄ where
  refundable_of-bounds :
      (now : ℤ) (c : GuestCurrent) (paid rent : ℕ)
      → c.approved ≡ pos paid
      → c.row.total_amount -ℤ c.row.security_deposit ≡ pos rent
      → (refund : ℕ) × (refundable_of now c ≡ cents (pos refund))
        × (paid - rent ≤ refund)
        × (refund ≤ paid)
  unfolding refundable_of
  refundable_of-bounds now c paid rent e k =
      let pct =
        (compute_cancellation_refund (policy_or_moderate c.policy) c.row.checkin_date
          now).refund_percentage in
      let (refund, q, low, high, full, empty) =
        refundable_amount_bounds pct paid rent
          (percentage_le (policy_or_moderate c.policy) c.row.checkin_date now) in
      (refund, rw (e, minus-cents c.row.total_amount c.row.security_deposit, k) q, low, high)

  -- the store when the money is given back
  abbrev pub freed : ℕ → Bookings → Bookings
  freed id t = release_nights id (set_reservation_status cancelled id t)

  cancel_found-Yields :
      (now : ℤ) (id tenant : ℕ) (c : GuestCurrent) (cs : List GuestCurrent) (t : Bookings)
      (refund : ℕ)
      → (c.row.tenant_id == tenant) ≡ true
      → includes guest_cancelable_statuses c.row.status ≡ true
      → All IsCollected (approved_payments id t.payments)
      → refundable_of now c ≡ cents (pos refund)
      → refund ≤ collected (approved_payments id t.payments)
      → (t' : Bookings) × Yields
          (cancel_found now id tenant (c ∷ cs))
          t
          (ok (cents (pos refund)))
          t'
        × Refunded (freed id t) refund t'
  unfolding cancel_found set_reservation_status release_nights
  cancel_found-Yields now id tenant c cs t refund own free h e le =
      let n : min refund (collected (approved_payments id t.payments)) ≡ refund = omega arith in
      let (t', y, k) =
        refund_absolute_amount-Yields id tenant refund reservation_cancellation (freed id t) h in
      (
        t',
        rw (own, free, e)
            (>>-Yields _ (throw_when-Yields false not_found t refl) (
              >>-Yields _ (throw_when-Yields false conflict t refl) (
                >>-Yields _ (update-Yields (set_reservation_status cancelled id) t) (
                  >>-Yields _
                    (update-Yields (release_nights id) (set_reservation_status cancelled id t))
                    (subst
                      (λ x.
                        Yields
                          (refund_absolute_amount id (cents (pos refund)) tenant
                            reservation_cancellation)
                          (freed id t) (ok (cents (pos x))) t')
                      n y))))),
        subst (λ x. Refunded (freed id t) x t') n k,
      )

  preview_of :
      (now : ℤ) (id tenant : ℕ) (c : GuestCurrent) (cs : List GuestCurrent) (t : Bookings)
      (d : Decimal)
      → find_guest_current id t ≡ c ∷ cs
      → (c.row.tenant_id == tenant) ≡ true
      → refundable_of now c ≡ d
      → cancellation_preview now id tenant t ≡ some d
  unfolding cancellation_preview
  preview_of now id tenant c cs t d found own e = rw (found, filter_by, own) (ap some e)

  -- A guest who cancels gets back what the preview of the same moment shows. When no query fails,
  -- the reservation that is found is the guest's and in a status that can be cancelled, its approved
  -- payments are not negative and its total is at least the deposit, `cancelMyReservation` returns;
  -- the reservation is cancelled and its nights are free; the refunds that are written come to the
  -- amount of the preview, which is at most what was paid, and at least what was paid beyond the rent.
  pub cancel_refunds_preview :
      (now : ℤ) (id tenant rent : ℕ) (c : GuestCurrent) (cs : List GuestCurrent)
      (s : Session Bookings)
      → NoFaults s
      → find_guest_current id s.store ≡ c ∷ cs
      → (c.row.tenant_id == tenant) ≡ true
      → includes guest_cancelable_statuses c.row.status ≡ true
      → All IsCollected (approved_payments id s.store.payments)
      → c.row.total_amount -ℤ c.row.security_deposit ≡ pos rent
      → let paid = collected (approved_payments id s.store.payments) in
        let after = cancel_my_reservation now id tenant s in
        (refund : ℕ) × (cancellation_preview now id tenant s.store ≡ some (cents (pos refund)))
        × (after.0 ≡ ok (cents (pos refund)))
        × Refunded (freed id s.store) refund after.1.store
        × (paid - rent ≤ refund)
        × (refund ≤ paid)
  unfolding cancel_my_reservation find_guest_current approved_paid
  cancel_refunds_preview now id tenant rent c cs s faultless found own free h r =
      let t = s.store in
      let paid = collected (approved_payments id t.payments) in
      let told : All (TellsApproved id t) (c ∷ cs) =
        subst (All (TellsApproved id t)) found (flat-TellsApproved id t t.reservations) in
      let a : c.approved ≡ pos paid = told.0 ∙ sum_collected (approved_payments id t.payments) h in
      let (refund, e, low, high) = refundable_of-bounds now c paid rent a r in
      let (t', y, k) = cancel_found-Yields now id tenant c cs t refund own free h e high in
      let z = transaction-Yields (
        >>=-Yields (λ current. cancel_found now id tenant current)
          (select-Yields (find_guest_current id) t) (rw found y)) in
      (
        refund,
        preview_of now id tenant c cs t (cents (pos refund)) found own e,
        z.result s refl faultless,
        rw (z.store s refl faultless) k,
        low,
        high,
      )
