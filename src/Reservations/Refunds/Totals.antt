-- ===== src/Reservations/Refunds/Totals.antt =====
-- What `refundAbsoluteAmount` gives back: the amount asked for, as far as the approved payments go.
use gestion_alquileres_backe.Transaction.{Session}
use mathlib.Core.Path.{subst}
use mathlib.Core.List.{append_assoc, append-nil}
use gestion_alquileres_backe.Transaction.Rules.{
  Yields, pure-Yields, >>-Yields, update-Yields, NoFaults, >>=-Yields, select-Yields,
}
use gestion_alquileres_backe.Money.Numeral.{
  cents, round2, min_of, minus, min_of-cents, minus-cents, round2-cents, plus-cents,
}
use gestion_alquileres_backe.Money.Decimal.{DecimalLib}
use gestion_alquileres_backe.Reservations.Refunds.{
  insert_refund, refund_payment_row, refund_remaining, refund_absolute_amount,
}
use gestion_alquileres_backe.Reservations.Cancellation.Laws.{min_pos}
use gestion_alquileres_backe.Prelude.Int.{
  sum_ℤ, ℤ, pos, ◌≤ℤ◌, pos_part, negsuc, min_ℤ, ◌-ℤ◌, int_laws, leb_ℤ, ◌+ℤ◌, add_pos,
}
use gestion_alquileres_backe.Prelude.{
  List, ℕ, [], ◌∷◌, sym, ◌≤◌, ◌≡◌, All, ◌+◌, ◌++◌, map, ◌∙◌, arith, min, ◌-◌, ok, refl, ap,
  Bool-cases, inl, inr,
}
use gestion_alquileres_backe.Reservations.Tables.{
  Payment, Bookings, PaymentRefund, RefundCause, approved_payments,
}

abbrev pub IsCollected : Payment → Type 0
IsCollected p = pos 0 ≤ℤ p.amount

-- the sum of the payments
abbrev pub collected : List Payment → ℕ
collected [] = 0
collected (p ∷ ps) = pos_part p.amount + collected ps

-- From `t` to `t'` refunds of `given` cents were written, and nothing else but statuses of payments.
pub record Refunded (t : Bookings) (given : ℕ) (t' : Bookings) : Type 0 where
  pub rows : List PaymentRefund
  pub written : t'.payment_refunds ≡ t.payment_refunds ++ rows
  pub total : sum_ℤ (map (λ (x : PaymentRefund). x.amount) rows) ≡ pos given
  pub reservations : t'.reservations ≡ t.reservations
  pub nights : t'.nights ≡ t.nights

nothing_given : (t : Bookings) → Refunded t 0 t
unfolding sum_ℤ
nothing_given t = record {
  rows = [];
  written = sym (append-nil t.payment_refunds);
  total = refl;
  reservations = refl;
  nights = refl;
}

-- one refund, and those after it
payment_given :
    (p : ℕ) (a : ℕ) (reason : RefundCause) (by : ℕ) (t t' : Bookings) (given : ℕ)
    → Refunded (refund_payment_row p (insert_refund p (cents (pos a)) reason by t)) given t'
    → Refunded t (a + given) t'
unfolding insert_refund refund_payment_row sum_ℤ
payment_given p a reason by t t' given h = record {
  rows = record { payment_id = p; amount = pos a; reason = reason; processed_by = by } ∷ h.rows;
  written = h.written ∙ append_assoc t.payment_refunds _ h.rows;
  total = ap (λ x. pos a +ℤ x) h.total ∙ add_pos a given;
  reservations = h.reservations;
  nights = h.nights;
}

pub pos_of : (x : ℤ) → pos 0 ≤ℤ x → x ≡ pos (pos_part x)
pos_of (pos n) h = refl
pos_of (negsuc n) h = absurd (omega arith)

module _ ⦃dec : DecimalLib⦄ where
  step_amount :
      (r : ℕ) (x : ℤ)
      → pos 0 ≤ℤ x
      → round2 (min_of (cents (pos r)) (cents x)) ≡ cents (pos (min r (pos_part x)))
  step_amount r x h =
      rw (min_of-cents (pos r) x, round2-cents (min_ℤ (pos r) x))
        (ap cents (ap (min_ℤ (pos r)) (pos_of x h) ∙ min_pos r (pos_part x)))

  step_rest :
      (r a : ℕ) → a ≤ r → round2 (minus (cents (pos r)) (cents (pos a))) ≡ cents (pos (r - a))
  step_rest r a h =
      rw (minus-cents (pos r) (pos a), round2-cents (pos r -ℤ pos a)) (ap cents (omega int_laws))

  -- the outcome of the loop
  refund_remaining-Yields :
      (reason : RefundCause) (by r total : ℕ) (ps : List Payment) (t : Bookings)
      → All IsCollected ps
      → (t' : Bookings) × Yields
          (refund_remaining reason by (cents (pos r)) (cents (pos total)) ps)
          t
          (ok (cents (pos (total + min r (collected ps)))))
          t'
        × Refunded t (min r (collected ps)) t'
  unfolding refund_remaining
  refund_remaining-Yields reason by r total [] t h =
      let e : min r 0 ≡ 0 = omega arith in
      let n : total + 0 ≡ total = omega arith in
      (t, rw (e, n) (pure-Yields (cents (pos total)) t), rw e (nothing_given t))
  refund_remaining-Yields reason by r total (p ∷ ps) t h =
      let a = pos_part p.amount in
      let rest = collected ps in
      elim (Bool-cases (leb_ℤ (pos r) (pos 0))) [
        | inl done ↦
            let e : min r (a + rest) ≡ 0 = ground arith in
            let n : total + 0 ≡ total = omega arith in
            (t, rw (done, e, n) (pure-Yields (cents (pos total)) t), rw e (nothing_given t))
        | inr more ↦ elim (Bool-cases (leb_ℤ (pos (min r a)) (pos 0))) [
          | inl nothing ↦
              let (t', y, k) = refund_remaining-Yields reason by r total ps t h.1 in
              let e : min r (a + rest) ≡ min r rest = ground arith in
              (t', rw (more, step_amount r p.amount h.0, nothing, e) y, rw e k)
          | inr some_left ↦
              let m = min r a in
              let t1 = insert_refund p.id (cents (pos m)) reason by t in
              let (t', y, k) =
                refund_remaining-Yields reason by (r - m) (total + m) ps
                  (refund_payment_row p.id t1) h.1 in
              let e : m + min (r - m) rest ≡ min r (a + rest) = omega arith in
              let n : total + m + min (r - m) rest ≡ total + min r (a + rest) = omega arith in
              let z =
                subst
                  (λ x.
                    Yields
                      (refund_remaining reason by (cents (pos (r - m))) (cents (pos (total + m)))
                        ps)
                      (refund_payment_row p.id t1) (ok (cents (pos x))) t')
                  n y in
              (
                t',
                rw
                    (
                      more,
                      step_amount r p.amount h.0,
                      some_left,
                      step_rest r m (omega arith),
                      plus-cents (pos total) (pos m),
                      add_pos total m,
                    )
                    (>>-Yields _ (update-Yields (insert_refund p.id (cents (pos m)) reason by) t)
                      (>>-Yields _ (update-Yields (refund_payment_row p.id) t1) z)),
                subst (λ x. Refunded t x t') e
                    (payment_given p.id m reason by t t' (min (r - m) rest) k),
              )
        ]
      ]

  pub refund_absolute_amount-Yields :
      (id by a : ℕ) (reason : RefundCause) (t : Bookings)
      → All IsCollected (approved_payments id t.payments)
      → let given = min a (collected (approved_payments id t.payments)) in
        (t' : Bookings) × Yields
          (refund_absolute_amount id (cents (pos a)) by reason)
          t
          (ok (cents (pos given)))
          t'
        × Refunded t given t'
  unfolding refund_absolute_amount
  refund_absolute_amount-Yields id by a reason t h =
      let ps = approved_payments id t.payments in
      elim (Bool-cases (leb_ℤ (pos a) (pos 0))) [
        | inl nothing ↦
            let e : min a (collected ps) ≡ 0 = ground arith in
            (t, rw (nothing, e) (pure-Yields (cents (pos 0)) t), rw e (nothing_given t))
        | inr some_asked ↦
            let (t', y, k) = refund_remaining-Yields reason by a 0 ps t h in
            let c = round2-cents (pos (0 + min a (collected ps))) in
            let n : 0 + min a (collected ps) ≡ min a (collected ps) = omega arith in
            (
              t',
              rw (some_asked, round2-cents (pos a))
                  (>>=-Yields _
                    (select-Yields (λ (x : Bookings). approved_payments id x.payments) t)
                    (>>=-Yields _ y
                      (rw (c, n) (pure-Yields (cents (pos (min a (collected ps)))) t')))),
              k,
            )
      ]

  -- When no query fails and the approved payments of the reservation are not negative, a refund of
  -- an amount gives back all of it or, if they are less, all that they come to; the rows that it
  -- writes to payment_refunds add up to what it returns; nights and reservations stay.
  pub refund_absolute_amount_total :
      (id by a : ℕ) (reason : RefundCause) (s : Session Bookings)
      → NoFaults s
      → All IsCollected (approved_payments id s.store.payments)
      → let given = min a (collected (approved_payments id s.store.payments)) in
        let after = refund_absolute_amount id (cents (pos a)) by reason s in
        (after.0 ≡ ok (cents (pos given))) × Refunded s.store given after.1.store
  refund_absolute_amount_total id by a reason s faultless h =
      let (t', y, k) = refund_absolute_amount-Yields id by a reason s.store h in
      (y.result s refl faultless, rw (y.store s refl faultless) k)
