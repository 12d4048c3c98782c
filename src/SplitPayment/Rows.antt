-- ===== src/SplitPayment/Rows.antt =====
-- The rows of payment_splits that the loop of `executeSplit` writes when no query fails.
use gestion_alquileres_backe.Money.Currency.{Code, get_currency_scale, normalize_currency}
use Prim.Native.Nat.{zero}
use gestion_alquileres_backe.Money.Numeral.{Decimal, round2, to_places}
use gestion_alquileres_backe.Money.Value.Minor.{IsMinor-to_minor_units, from_minor_units-IsMinor}
use gestion_alquileres_backe.Money.Value.{Money, to_number, round, from_minor_units}
use gestion_alquileres_backe.Prelude.Int.{
  ℤ, pos, negsuc, ◌*ℤ◌, ◌+ℤ◌, sum_ℤ, mul_pos_parts, eq_of_parts, +ℤ_parts,
}
use gestion_alquileres_backe.Money.Decimal.{round_div, round_div_exact}
use gestion_alquileres_backe.SplitPayment.{
  ExecuteSplitParams, OwnerRow, Period, SplitCalculation, PaymentSplit, OwnerStatement, Tables,
  calculate_split,
}
use gestion_alquileres_backe.Money.Decimal.{DecimalLib}
use gestion_alquileres_backe.Prelude.{
  ◌≡◌, refl, List, [], ◌∷◌, ◌++◌, arith, map, length, ok, ap, sym, ◌∙◌, suc, ℕ, ◌≤◌, ◌^◌, ◌-◌, zero,
  ◌*◌,
}
use gestion_alquileres_backe.Transaction.Rules.{
  Yields, update-Yields, >>=-Yields, pure-Yields, select-Yields, >>-Yields,
}
use gestion_alquileres_backe.SplitPayment.Execute.{
  split_among, write_statement, upsert_owner_statement, insert_split,
}
use mathlib.Core.List.{append_assoc, append-nil}

-- the rows that the loop inserts
abbrev pub split_rows :
    ⦃dec : DecimalLib⦄
    → ExecuteSplitParams
    → List OwnerRow
    → List Money
    → List Money
    → List PaymentSplit
split_rows p (o ∷ os) (g ∷ gs) (m ∷ ms) =
    record {
      payment_id = p.payment_id;
      rental_owner_id = o.rental_owner_id;
      owner_name = o.owner_name;
      ownership_pct = o.ownership_percentage;
      amount = round2 (to_number g);
    }
    ∷ split_rows p os gs ms
split_rows p _ _ _ = []

module _ ⦃dec : DecimalLib⦄ where
  pub write_statement-Yields :
      (p : ExecuteSplitParams) (period : Period) (owner : OwnerRow) (split : SplitCalculation)
      (existing : List OwnerStatement) (t : Tables)
      → (t' : Tables) × Yields (write_statement p period owner split existing) t (ok tt) t'
        × (t'.payment_splits ≡ t.payment_splits)
  unfolding write_statement
  write_statement-Yields p period owner split [] t = (_, update-Yields _ t, refl)
  write_statement-Yields p period owner split (s ∷ ss) t = (_, update-Yields _ t, refl)

  pub upsert-Yields :
      (p : ExecuteSplitParams) (period : Period) (owner : OwnerRow) (split : SplitCalculation)
      (t : Tables)
      → (t' : Tables) × Yields (upsert_owner_statement p period owner split) t (ok tt) t'
        × (t'.payment_splits ≡ t.payment_splits)
  unfolding upsert_owner_statement
  upsert-Yields p period owner split t =
      let (t', y, e) = write_statement-Yields p period owner split _ t in
      (t', >>=-Yields _ (select-Yields _ t) y, e)

mul_one : (u : ℤ) → u *ℤ pos 1 ≡ u
unfolding ◌*ℤ◌
mul_one (pos n) = ground arith
mul_one (negsuc n) = ground arith

mul_tens : (u : ℤ) → u *ℤ pos 100 ≡ (u *ℤ pos 10) *ℤ pos 10
unfolding ◌*ℤ◌
mul_tens (pos n) = ground arith
mul_tens (negsuc n) = ground arith

mul_sum : (a b : ℤ) (k : ℕ) → a *ℤ pos k +ℤ b *ℤ pos k ≡ (a +ℤ b) *ℤ pos k
mul_sum a b k =
    let x = mul_pos_parts a k in
    let y = mul_pos_parts b k in
    let z = mul_pos_parts (a +ℤ b) k in
    eq_of_parts _ _ (
      omega
        (arith, x, y, z, +ℤ_parts (a *ℤ pos k) (b *ℤ pos k), ap (λ (t : ℕ). t * k) (+ℤ_parts a b)))

zero_mul : (k : ℕ) → pos 0 *ℤ pos k ≡ pos 0
zero_mul k = let x = mul_pos_parts (pos 0) k in eq_of_parts _ _ (omega (arith, x))

joined :
    {A : Type 0} (old : List A) (row : A) (rows : List A) {new : List A}
    → new ≡ old ++ (row ∷ [])
    → new ++ rows ≡ old ++ (row ∷ rows)
joined old row rows e = rw e (append_assoc old (row ∷ []) rows)

module _ ⦃dec : DecimalLib⦄ where
  pub split_among-Yields :
      (p : ExecuteSplitParams) (period : Period) (rate : Decimal) (owners : List OwnerRow)
      (gs ms : List Money) (t : Tables)
      → (t' : Tables) × Yields (split_among p period rate owners gs ms) t (ok tt) t'
        × (t'.payment_splits ≡ t.payment_splits ++ split_rows p owners gs ms)
  unfolding split_among insert_split calculate_split
  split_among-Yields p period rate [] gs ms t = (t, pure-Yields tt t, sym (append-nil _))
  split_among-Yields p period rate (o ∷ os) [] ms t = (t, pure-Yields tt t, sym (append-nil _))
  split_among-Yields p period rate (o ∷ os) (g ∷ gs) [] t =
      (t, pure-Yields tt t, sym (append-nil _))
  split_among-Yields p period rate (o ∷ os) (g ∷ gs) (m ∷ ms) t =
      let split = calculate_split (to_number g) rate (to_number m) in
      let t1 = insert_split p o split t in
      let (t2, y2, e2) = upsert-Yields p period o split t1 in
      let (t3, y3, e3) = split_among-Yields p period rate os gs ms t2 in
      (
        t3,
        >>-Yields _ (update-Yields (insert_split p o split) t) (>>-Yields _ y2 y3),
        e3 ∙ joined _ _ _ e2,
      )

  -- a part of minor units, in the column
  pub stored-units :
      (u : ℤ) (k : ℕ)
      → k ≤ 2
      → (round2 (record { units = u; places = k })).units ≡ u *ℤ pos (10 ^ (2 - k))
  unfolding to_places
  stored-units u zero h =
      ap (λ x. round_div x 1) (sym (mul_one (u *ℤ pos 100)))
      ∙ round_div_exact (u *ℤ pos 100) 1 (omega arith)
  stored-units u (suc zero) h =
      ap (λ x. round_div x 10) (mul_tens u) ∙ round_div_exact (u *ℤ pos 10) 10 (omega arith)
  stored-units u (suc (suc zero)) h = round_div_exact u 100 (omega arith) ∙ sym (mul_one u)
  stored-units u (suc (suc (suc k))) h = absurd (omega (arith, h))

  -- the parts of an allocation, in the column
  pub stored-parts :
      (c : Code) (us : List ℤ)
      → get_currency_scale (normalize_currency c) ≤ 2
      → sum_ℤ (map (λ g. (round2 (to_number g)).units) (map (λ u. from_minor_units u c) us))
        ≡ sum_ℤ us *ℤ pos (10 ^ (2 - get_currency_scale (normalize_currency c)))
  unfolding to_number round from_minor_units sum_ℤ
  stored-parts c [] h = sym (zero_mul (10 ^ (2 - get_currency_scale (normalize_currency c))))
  stored-parts c (u ∷ us) h =
      let k = get_currency_scale (normalize_currency c) in
      ap
        (λ x.
          x +ℤ sum_ℤ (map (λ g. (round2 (to_number g)).units) (map (λ u. from_minor_units u c) us)))
        (ap (λ x. (round2 (record { units = x; places = k })).units)
            (IsMinor-to_minor_units (from_minor_units u c) u (from_minor_units-IsMinor u c))
          ∙ stored-units u k h)
      ∙ ap (λ x. u *ℤ pos (10 ^ (2 - k)) +ℤ x) (stored-parts c us h)
      ∙ mul_sum u (sum_ℤ us) (10 ^ (2 - k))

  pub split_rows-amounts :
      (p : ExecuteSplitParams) (owners : List OwnerRow) (gs ms : List Money)
      → length gs ≡ length owners
      → length ms ≡ length owners
      → (length (split_rows p owners gs ms) ≡ length owners)
        × (map (λ r. r.amount.units) (split_rows p owners gs ms)
            ≡ map (λ g. (round2 (to_number g)).units) gs)
        × (map (λ r. r.rental_owner_id) (split_rows p owners gs ms)
            ≡ map (λ o. o.rental_owner_id) owners)
  split_rows-amounts p [] [] ms e f = (refl, refl, refl)
  split_rows-amounts p [] (g ∷ gs) ms e f = absurd (omega arith)
  split_rows-amounts p (o ∷ os) [] ms e f = absurd (omega arith)
  split_rows-amounts p (o ∷ os) (g ∷ gs) [] e f = absurd (omega arith)
  split_rows-amounts p (o ∷ os) (g ∷ gs) (m ∷ ms) e f =
      let (len, amounts, ids) = split_rows-amounts p os gs ms (omega arith) (omega arith) in
      (
        ap suc len,
        ap (λ xs. (round2 (to_number g)).units ∷ xs) amounts,
        ap (λ xs. o.rental_owner_id ∷ xs) ids,
      )
