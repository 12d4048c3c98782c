-- ===== src/Money/Allocate/Conservation.antt =====
-- What `allocate` promises: the parts add up to the amount, and each is its proportion rounded down
-- or one unit more; its loop ends and its last check passes.
use gestion_alquileres_backe.Money.Decimal.{DecimalLib}
use gestion_alquileres_backe.Money.Value.Minor.{to_minor_units-map}
use gestion_alquileres_backe.Prelude.{
  ℕ, zero, suc, ◌≡◌, ap, ◌∙◌, Bool, true, false, List, [], ◌∷◌, map, length, Bool-cases, inl, inr,
  get_or, if◌then◌else◌, some, ok, get_elem?, any, ◌≢◌, length-map, ◌⊎◌, none, err, Option, Result,
}
use gestion_alquileres_backe.Prelude.Int.{ℤ, pos, sum_ℤ, ◌+ℤ◌, pos_part, ltb_ℤ, leb_ℤ}
use gestion_alquileres_backe.Money.Allocate.{
  base_shares, allocate_minor, allocate, floor_div, unbalanced, bad_index, AllocateError,
}
use gestion_alquileres_backe.Money.Allocate.Order.{
  has_index, order_of-AreDistinct, take-AreDistinct,
}
use gestion_alquileres_backe.Money.Allocate.Loop.{get_or-bump_all}
use gestion_alquileres_backe.Money.Allocate.Parts.{
  AreWeights, parts_of, chosen, chosen_facts, sum-parts_of, length-parts_of, allocate_minor_lem,
}
use gestion_alquileres_backe.Money.Value.{Money, to_minor_units, from_minor_units}
use gestion_alquileres_backe.Prelude.Int.{◌*ℤ◌}
use gestion_alquileres_backe.Prelude.{length-map, map, ◌≢◌, err, none}

-- The parts stand for as many minor units as the total does.
pub allocate_parts :
    ⦃dec : DecimalLib⦄ (total : Money) (r : ℤ) (rs : List ℤ)
    → AreWeights (r ∷ rs)
    → (shares : List ℤ) × (allocate total (r ∷ rs)
        ≡ some (ok (map (λ u. from_minor_units u total.currency) shares)))
      × (length shares ≡ length (r ∷ rs))
      × (sum_ℤ shares ≡ to_minor_units total)
unfolding allocate
allocate_parts total r rs w =
    let shares = parts_of (to_minor_units total) (r ∷ rs) in
    (
      shares,
      rw (allocate_minor_lem (to_minor_units total) r rs w),
      length-parts_of (to_minor_units total) (r ∷ rs),
      sum-parts_of (to_minor_units total) r rs w,
    )

-- What `allocate` hands out is what it was given: for weights that pass the guards it returns one
-- part for each weight, and the parts, read in minor units, add up to the amount in minor units.
pub allocate_conserves :
    ⦃dec : DecimalLib⦄ (total : Money) (r : ℤ) (rs : List ℤ)
    → AreWeights (r ∷ rs)
    → (parts : List Money) × (allocate total (r ∷ rs) ≡ some (ok parts))
      × (length parts ≡ length (r ∷ rs))
      × (sum_ℤ (map to_minor_units parts) ≡ to_minor_units total)
allocate_conserves total r rs w =
    let (shares, e, l, sum) = allocate_parts total r rs w in
    (
      map (λ u. from_minor_units u total.currency) shares,
      e,
      length-map _ shares ∙ l,
      rw (to_minor_units-map total.currency shares) sum,
    )

split :
    (b : Bool) {got low floor : ℤ}
    → got ≡ (if b then low +ℤ pos 1 else low)
    → low ≡ floor
    → (got ≡ floor) ⊎ (got ≡ floor +ℤ pos 1)
split true e q = inr (rw (← q) e)
split false e q = inl (e ∙ q)

just : {x y : ℤ} → some x ≡ some y → x ≡ y
just e = cc

get_or-base_shares :
    (total : ℤ) (d : ℕ) (rs : List ℤ) (j : ℕ) {weight : ℤ}
    → get_elem? rs j ≡ some weight
    → get_or (base_shares total d rs) j (pos 0) ≡ floor_div (total *ℤ weight) d
unfolding base_shares
get_or-base_shares total d [] j e = cc
get_or-base_shares total d (r ∷ rs) zero e = ap (λ x. floor_div (total *ℤ x) d) (just e)
get_or-base_shares total d (r ∷ rs) (suc j) e = get_or-base_shares total d rs j e

get_or-parts_of :
    (total : ℤ) (r : ℤ) (rs : List ℤ) (j : ℕ)
    → AreWeights (r ∷ rs)
    → let low = get_or (base_shares total (pos_part (sum_ℤ (r ∷ rs))) (r ∷ rs)) j (pos 0) in
      get_or (parts_of total (r ∷ rs)) j (pos 0)
      ≡ (if has_index j (chosen total (r ∷ rs)) then low +ℤ pos 1 else low)
get_or-parts_of total r rs j w =
    get_or-bump_all (chosen total (r ∷ rs)) _ j
      (take-AreDistinct _ _ (order_of-AreDistinct total (pos_part (sum_ℤ (r ∷ rs))) (r ∷ rs)))
      (chosen_facts total r rs w).1

-- A part is its proportion of the amount, rounded down, or one minor unit more.
pub allocate_within_one :
    (total : ℤ) (r : ℤ) (rs : List ℤ) (j : ℕ) {weight : ℤ}
    → AreWeights (r ∷ rs)
    → get_elem? (r ∷ rs) j ≡ some weight
    → let low = floor_div (total *ℤ weight) (pos_part (sum_ℤ (r ∷ rs))) in
      (parts : List ℤ) × (allocate_minor total (r ∷ rs) ≡ some (ok parts))
      × ((get_or parts j (pos 0) ≡ low) ⊎ (get_or parts j (pos 0) ≡ low +ℤ pos 1))
allocate_within_one total r rs j w e = (
  parts_of total (r ∷ rs),
  allocate_minor_lem total r rs w,
  split _ (get_or-parts_of total r rs j w)
      (get_or-base_shares total (pos_part (sum_ℤ (r ∷ rs))) (r ∷ rs) j e),
)

returned_ok :
    {res : Option (Result AllocateError (List ℤ))} {parts : List ℤ}
    → res ≡ some (ok parts)
    → (res ≢ none) × (res ≢ some (err unbalanced)) × (res ≢ some (err bad_index))
returned_ok e = ((λ h. cc), (λ h. cc), (λ h. cc))

-- Whatever the amount and the weights, the loop of `allocate` ends, no entry is missing, and the
-- last check never finds the parts unbalanced.
pub allocate_never_unbalanced :
    (total : ℤ) (ratios : List ℤ)
    → (allocate_minor total ratios ≢ none)
      × (allocate_minor total ratios ≢ some (err unbalanced))
      × (allocate_minor total ratios ≢ some (err bad_index))
unfolding allocate_minor
allocate_never_unbalanced total [] = ((λ h. cc), (λ h. cc), (λ h. cc))
allocate_never_unbalanced total (r ∷ rs) = elim (Bool-cases (any (λ x. ltb_ℤ x (pos 0)) (r ∷ rs))) [
  | inl negative ↦ rw negative ((λ h. cc), (λ h. cc), (λ h. cc))
  | inr fine ↦ elim (Bool-cases (leb_ℤ (sum_ℤ (r ∷ rs)) (pos 0))) [
    | inl zero_sum ↦ rw (fine, zero_sum) ((λ h. cc), (λ h. cc), (λ h. cc))
    | inr positive ↦
        returned_ok (
          allocate_minor_lem total r rs (record { none_negative = fine; some_positive = positive }))
  ]
]
