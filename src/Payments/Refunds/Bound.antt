-- ===== src/Payments/Refunds/Bound.antt =====
-- A payment is never refunded by more than its amount.
use gestion_alquileres_backe.Transaction.Rules.{update-Keeps, pure-Keeps}
use gestion_alquileres_backe.Transaction.{Session, update, pure}
use gestion_alquileres_backe.Transaction.Commit.{
  Lands, throw-Lands, Lands→Keeps, select->>=-Lands, throw_when->>-Lands, Keeps→Lands,
  update->>-Lands,
}
use mathlib.Core.Bool.{true}
use mathlib.Core.Path.{subst}
use gestion_alquileres_backe.Money.Numeral.{to_places, times, Decimal, round2}
use gestion_alquileres_backe.Money.Decimal.{DecimalLib}
use gestion_alquileres_backe.Prelude.Int.{
  ℤ, sum_ℤ, ◌*ℤ◌, pos, ◌≤ℤ◌, ◌+ℤ◌, int_laws, mul_pos_parts, ltb_ℤ, is_zero, ◌-ℤ◌, not_less,
}
use gestion_alquileres_backe.Payments.Refunds.{
  not_approved, refunded_of, PaymentRow, RefundTables, to_cents, rows_of, RefundRow, mark_if,
  amount_for, insert_refund_row, refund_checked, refund_found, create_refund, enqueue_refund,
  mark_payment_refunded, RefundError, payment_not_found, exceeds_payment,
}
use gestion_alquileres_backe.Prelude.{
  List, ℕ, ◌∷◌, ◌++◌, ◌≡◌, map, [], Bool-cases, ◌==◌, inl, inr, Bool, ◌+◌, refl, if◌then◌else◌,
  arith, false, sym, true, ◌∙◌, ap,
}

abbrev pub Within : List PaymentRow → ℤ → Type 0
Within [] refunds = Unit {0}
Within (p ∷ ps) refunds = refunds ≤ℤ p.amount

-- the refunds of the payment are at most its amount
abbrev pub IsWithin : ℕ → RefundTables → Type 0
IsWithin id t = Within (rows_of id t.payments) (refunded_of id t.payment_refunds)

sum-snoc :
    (id : ℕ) (row : RefundRow) (rows : List RefundRow)
    → refunded_of id (rows ++ (row ∷ [])) ≡ refunded_of id rows +ℤ amount_for id row
unfolding refunded_of sum_ℤ
sum-snoc id row [] = omega int_laws
sum-snoc id row (x ∷ xs) = rw (sum-snoc id row xs) (omega int_laws)

mul_one : (x : ℤ) → x *ℤ pos 1 ≡ x
mul_one x = let q = mul_pos_parts x 1 in omega (int_laws, q.0, q.1)

id_kept : (id : ℕ) (p : PaymentRow) → (mark_if id p).id ≡ p.id
id_kept id p = elim (Bool-cases (p.id == id)) [
  | inl marked ↦ rw marked refl
  | inr left ↦ rw left refl
]

amount_kept : (id : ℕ) (p : PaymentRow) → (mark_if id p).amount ≡ p.amount
amount_kept id p = elim (Bool-cases (p.id == id)) [
  | inl marked ↦ rw marked refl
  | inr left ↦ rw left refl
]

first_kept :
    (b : Bool) (x y : PaymentRow) (xs ys : List PaymentRow) (refunds : ℤ)
    → y.amount ≡ x.amount
    → (Within xs refunds → Within ys refunds)
    → Within (elim b as (λ _. List PaymentRow) [ true ↦ x ∷ xs | false ↦ xs ]) refunds
    → Within (elim b as (λ _. List PaymentRow) [ true ↦ y ∷ ys | false ↦ ys ]) refunds
first_kept true x y xs ys refunds e k h = subst (λ a. refunds ≤ℤ a) (sym e) h
first_kept false x y xs ys refunds e k h = k h

-- a payment's new status changes neither its amount nor its place
same_rows :
    (id q : ℕ) (ps : List PaymentRow) (refunds : ℤ)
    → Within (rows_of q ps) refunds
    → Within (rows_of q (map (mark_if id) ps)) refunds
same_rows id q [] refunds h = tt
same_rows id q (p ∷ ps) refunds h =
    subst
      (λ x.
        Within
          (elim (x == q) as (λ _. List PaymentRow) [
            | true ↦ mark_if id p ∷ rows_of q (map (mark_if id) ps)
            | false ↦ rows_of q (map (mark_if id) ps)
          ])
          refunds)
      (sym (id_kept id p))
      (first_kept (p.id == q) p (mark_if id p) (rows_of q ps) (rows_of q (map (mark_if id) ps))
        refunds (amount_kept id p) (same_rows id q ps refunds) h)

own_amount : (row : RefundRow) → amount_for row.payment_id row ≡ row.amount
own_amount row = ground arith

other_amount : (id : ℕ) (row : RefundRow) → row.payment_id == id ≡ false → amount_for id row ≡ pos 0
other_amount id row h = rw h refl

module _ ⦃dec : DecimalLib⦄ where
  pub to_cents-round2 : (a : Decimal) → to_cents a ≡ (round2 a).units
  unfolding to_cents to_places times
  to_cents-round2 a =
      let n : a.places + 0 ≡ a.places = omega arith in rw (mul_one (a.units *ℤ pos 100), n) refl

  -- the new row, behind the guard
  inserted :
      (id q : ℕ) (amount : Decimal) (admin : ℕ) (p : PaymentRow) (ps : List PaymentRow)
      (t : RefundTables)
      → rows_of id t.payments ≡ p ∷ ps
      → ltb_ℤ p.amount (refunded_of id t.payment_refunds +ℤ to_cents amount) ≡ false
      → IsWithin q t
      → IsWithin q (insert_refund_row id amount admin t)
  unfolding insert_refund_row
  inserted id q amount admin p ps t f g h =
      let row : RefundRow = record {
        id = t.next_refund_id;
        payment_id = id;
        amount = (round2 amount).units;
        processed_by = admin;
      } in
      let rows = t.payment_refunds in
      elim (Bool-cases (id == q)) [
        | inl mine ↦
            let e : id ≡ q = ground arith in
            let own : amount_for id row ≡ to_cents amount =
              own_amount row ∙ sym (to_cents-round2 amount) in
            let sum : refunded_of id (rows ++ (row ∷ [])) ≡ refunded_of id rows +ℤ to_cents amount =
              sum-snoc id row rows ∙ ap (λ x. refunded_of id rows +ℤ x) own in
            let bound : refunded_of id (rows ++ (row ∷ [])) ≤ℤ p.amount =
              subst (λ x. x ≤ℤ p.amount) (sym sum)
                (not_less p.amount (refunded_of id rows +ℤ to_cents amount) g) in
            subst (λ x. Within (rows_of x t.payments) (refunded_of x (rows ++ (row ∷ [])))) e
              (subst (λ l. Within l (refunded_of id (rows ++ (row ∷ [])))) (sym f) bound)
        | inr other ↦
            let zero_sum : refunded_of q (rows ++ (row ∷ [])) ≡ refunded_of q rows =
              sum-snoc q row rows
              ∙ ap (λ x. refunded_of q rows +ℤ x) (other_amount q row other)
              ∙ omega int_laws in
            subst (Within (rows_of q t.payments)) (sym zero_sum) h
      ]

  refund_checked-Lands :
      (id q : ℕ) (amount : Decimal) (admin : ℕ) (p : PaymentRow) (ps : List PaymentRow)
      (t : RefundTables)
      → rows_of id t.payments ≡ p ∷ ps
      → IsWithin q t
      → Lands t (refund_checked id amount admin p (refunded_of id t.payment_refunds)) (IsWithin q)
  unfolding refund_checked enqueue_refund mark_payment_refunded
  refund_checked-Lands id q amount admin p ps t f h =
      throw_when->>-Lands _ exceeds_payment _ t (λ g.
        select->>=-Lands (λ (x : RefundTables). x.next_refund_id) _ t
          (update->>-Lands (insert_refund_row id amount admin) _ t (
            update->>-Lands (enqueue_refund t.next_refund_id id admin) _ _ (
              last (is_zero (p.amount -ℤ (refunded_of id t.payment_refunds +ℤ to_cents amount)))
                (inserted id q amount admin p ps t f g h)))))
    where
      last :
          (b : Bool) {x : RefundTables}
          → IsWithin q x
          → Lands {E = RefundError} x
              (if b then update (mark_payment_refunded id) else pure tt)
              (IsWithin q)
      last true {x} k = Keeps→Lands _ x k (
          update-Keeps (mark_payment_refunded id)
            (λ y. same_rows id q y.payments (refunded_of q y.payment_refunds)))
      last false {x} k = Keeps→Lands _ x k (pure-Keeps tt)

  refund_found-Lands :
      (id q : ℕ) (amount : Decimal) (admin : ℕ) (rows : List PaymentRow) (t : RefundTables)
      → rows_of id t.payments ≡ rows
      → IsWithin q t
      → Lands t (refund_found id amount admin rows) (IsWithin q)
  unfolding refund_found
  refund_found-Lands id q amount admin [] t f h = throw-Lands payment_not_found t
  refund_found-Lands id q amount admin (p ∷ ps) t f h = throw_when->>-Lands _ not_approved _ t (λ _.
      select->>=-Lands (λ (x : RefundTables). refunded_of id x.payment_refunds) _ t
        (refund_checked-Lands id q amount admin p ps t f h))

  -- Whatever `createRefund` does, and whichever way it ends, the refunds of a payment that came to no
  -- more than its amount before it come to no more afterwards, for every payment, not the refunded
  -- one alone.
  pub create_refund_keeps_bound :
      (id q : ℕ) (amount : Decimal) (admin : ℕ) (s : Session RefundTables)
      → IsWithin q s.store
      → IsWithin q (create_refund id amount admin s).1.store
  unfolding create_refund
  create_refund_keeps_bound id q amount admin =
      (Lands→Keeps _ (λ t h.
        select->>=-Lands (λ (x : RefundTables). rows_of id x.payments) _ t
          (refund_found-Lands id q amount admin (rows_of id t.payments) t refl h))).keep
