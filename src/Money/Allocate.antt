-- ===== src/Money/Allocate.antt =====
-- src/common/money/allocate.ts: the largest-remainder division of an amount. Ratios are integers
-- (percentages in hundredths, or plain weights), and their products and quotients are exact.
pub mod Floor
pub mod Order
pub mod Loop
pub mod Parts
pub mod Conservation
use mathlib.Core.Option
use gestion_alquileres_backe.Prelude.{
  ℕ, zero, suc, ◌+◌, ◌-◌, ◌%◌, ◌/◌, true, false, List, [], ◌∷◌, map, Option, none, some, Result, ok,
  err, length, get_elem?, if◌then◌else◌, leb, any, ◌>>=◌,
}
use gestion_alquileres_backe.Prelude.Int.{
  ℤ, sum_ℤ, pos, ◌*ℤ◌, ◌+ℤ◌, is_zero, pos_part, ◌-ℤ◌, negsuc, neg_part, leb_ℤ, ltb_ℤ,
}
use gestion_alquileres_backe.Money.Value.{Money, from_minor_units, to_minor_units}
use gestion_alquileres_backe.Money.Decimal.{DecimalLib}

pub data AllocateError : Type 0 where
  no_ratios negative_ratio zero_ratio_sum unbalanced bad_index : AllocateError

-- `Math.floor(n / d)`, and what is left of n
unfoldable pub floor_div : ℤ → ℕ → ℤ
floor_div (pos n) d = pos (n / d)
floor_div (negsuc n) d = negsuc (n / d)

-- an entry of `remainders`: `frac` is the fraction's numerator over the sum of the ratios
pub record Part : Type 0 where
  pub index : ℕ
  pub frac : ℕ

-- (total * ratio) / ratioSum - shares[i], over ratioSum
unfoldable pub frac_of : ℤ → ℕ → ℕ
frac_of (pos n) d = n % d
frac_of (negsuc n) d = d - 1 - n % d

unfoldable pub base_shares : ℤ → ℕ → List ℤ → List ℤ
base_shares total ratio_sum ratios = map (λ r. floor_div (total *ℤ r) ratio_sum) ratios

unfoldable pub remainders_from : ℕ → ℤ → ℕ → List ℤ → List Part
remainders_from i total ratio_sum [] = []
remainders_from i total ratio_sum (r ∷ rs) =
    record { index = i; frac = frac_of (total *ℤ r) ratio_sum }
    ∷ remainders_from (suc i) total ratio_sum rs

-- `sort((a, b) => b.frac - a.frac)`: descending and stable
unfoldable pub insert_desc : Part → List Part → List Part
insert_desc p [] = p ∷ []
insert_desc p (q ∷ qs) = if leb q.frac p.frac then p ∷ q ∷ qs else q ∷ insert_desc p qs

unfoldable pub sort_desc : List Part → List Part
sort_desc [] = []
sort_desc (p ∷ ps) = insert_desc p (sort_desc ps)

-- `shares[target] += step`
unfoldable pub bump : List ℤ → ℕ → ℤ → List ℤ
bump [] target step = []
bump (s ∷ ss) zero step = (s +ℤ step) ∷ ss
bump (s ∷ ss) (suc target) step = s ∷ bump ss target step

-- The `while (remainder !== 0)` loop; `none` when the fuel runs out, an error when no entry
-- stands at i % length.
unfoldable pub distribute :
    ℕ → List Part → ℤ → ℕ → ℤ → List ℤ → Option (Result AllocateError (List ℤ))
distribute zero order step i remainder shares = none
distribute (suc fuel) order step i remainder shares = elim (is_zero remainder) [
  | true ↦ some (ok shares)
  | false ↦ elim (get_elem? order (i % length order)) [
    | none ↦ some (err bad_index)
    | some p ↦ distribute fuel order step (i + 1) (remainder -ℤ step) (bump shares p.index step)
  ]
]

-- The fuel that the loop needs: one round for each unit of the remainder, and the last test.
abbrev pub rounds : ℤ → ℕ
rounds remainder = suc (pos_part remainder + neg_part remainder)

-- The body behind the guards; the outer `none` stands for a loop that does not end.
unfoldable pub allocate_shares : ℤ → List ℤ → ℕ → Option (Result AllocateError (List ℤ))
unfolding base_shares
allocate_shares total ratios ratio_sum =
    let shares = base_shares total ratio_sum ratios in
    let remainder = total -ℤ sum_ℤ shares in
    let order = sort_desc (remainders_from 0 total ratio_sum ratios) in
    let step = if leb_ℤ (pos 0) remainder then pos 1 else negsuc 0 in
    distribute (rounds remainder) order step 0 remainder shares

-- `distributed !== totalMinor`
unfoldable pub check_balance : ℤ → List ℤ → Result AllocateError (List ℤ)
check_balance total shares = if is_zero (total -ℤ sum_ℤ shares) then ok shares else err unbalanced

-- `allocate` on minor units: the guards, the loop, the check
unfoldable pub allocate_minor : ℤ → List ℤ → Option (Result AllocateError (List ℤ))
unfolding allocate_shares
allocate_minor total [] = some (err no_ratios)
allocate_minor total (r ∷ rs) =
    let ratio_sum = sum_ℤ (r ∷ rs) in
    if any (λ x. ltb_ℤ x (pos 0)) (r ∷ rs)
    then some (err negative_ratio)
    else if leb_ℤ ratio_sum (pos 0)
    then some (err zero_ratio_sum)
    else Option.map (λ res. res >>= check_balance total)
        (allocate_shares total (r ∷ rs) (pos_part ratio_sum))

module _ ⦃dec : DecimalLib⦄ where
  -- `allocate`
  unfoldable pub allocate : Money → List ℤ → Option (Result AllocateError (List Money))
  unfolding allocate_minor
  allocate total ratios =
      Option.map (λ res. res >>= λ shares. ok (map (λ u. from_minor_units u total.currency) shares))
        (allocate_minor (to_minor_units total) ratios)
