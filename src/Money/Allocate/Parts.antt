-- ===== src/Money/Allocate/Parts.antt =====
-- The parts that `allocate` computes behind its guards, as one expression: the shares rounded down,
-- and one unit more for the first entries of the order.
use mathlib.Core.Path.{subst}
use gestion_alquileres_backe.Prelude.{
  ℕ, zero, suc, ◌+◌, ◌≤◌, ◌<◌, ◌≡◌, refl, sym, ◌∙◌, true, false, List, ◌∷◌, arith, length, take,
  if◌then◌else◌, some, ok, any, length-take, All-take,
}
use gestion_alquileres_backe.Prelude.Int.{
  ℤ, pos, sum_ℤ, ◌+ℤ◌, ◌-ℤ◌, int_laws, pos_part, neg_part, ltb_ℤ, leb_ℤ, negsuc, is_zero,
}
use gestion_alquileres_backe.Money.Allocate.{
  Part, distribute, base_shares, allocate_shares, check_balance, allocate_minor, rounds,
}
use gestion_alquileres_backe.Money.Allocate.Floor.{remainder_bounds, length-base_shares}
use gestion_alquileres_backe.Money.Allocate.Order.{
  AreBelow, order_of, length-order_of, order_of-AreBelow,
}
use gestion_alquileres_backe.Money.Allocate.Loop.{
  bump_all, distribute_lem, sum-bump_all, length-bump_all,
}

-- Weights that pass the guards: none negative, and a sum above zero.
pub record AreWeights (ratios : List ℤ) : Type 0 where
  pub none_negative : any (λ x. ltb_ℤ x (pos 0)) ratios ≡ false
  pub some_positive : leb_ℤ (sum_ℤ ratios) (pos 0) ≡ false

-- the number of units that are left after rounding down
abbrev pub left_over : ℤ → List ℤ → ℕ
left_over total rs = pos_part (total -ℤ sum_ℤ (base_shares total (pos_part (sum_ℤ rs)) rs))

-- The parts as the specification has them: each share rounded down, and one unit more for the
-- entries with the largest fractions.
abbrev pub parts_of : ℤ → List ℤ → List ℤ
parts_of total rs =
    let d = pos_part (sum_ℤ rs) in
    bump_all (take (left_over total rs) (order_of total d rs)) (base_shares total d rs)

positive_sum : (x : ℤ) → leb_ℤ x (pos 0) ≡ false → (x ≡ pos (pos_part x)) × (0 < pos_part x)
positive_sum (pos zero) h = cc
positive_sum (pos (suc n)) h = (refl, omega arith)
positive_sum (negsuc n) h = absurd (negative_le n h)
  where
    negative_le : (n : ℕ) → leb_ℤ (negsuc n) (pos 0) ≡ false → ⊥
    negative_le n h = ground arith

nonneg_pos : (x : ℤ) → neg_part x ≤ pos_part x → x ≡ pos (pos_part x)
nonneg_pos (pos n) h = refl
nonneg_pos (negsuc n) h = elim h [ ]

drop_zero : {x : ℤ} {k n : ℕ} → x ≡ pos k → pos_part x < neg_part x + n → k < n
drop_zero {k} {n} e h = let h' : k < 0 + n = rw e at h in omega arith

remainder_eq :
    (total : ℤ) (r : ℤ) (rs : List ℤ)
    → AreWeights (r ∷ rs)
    → let rest = total -ℤ sum_ℤ (base_shares total (pos_part (sum_ℤ (r ∷ rs))) (r ∷ rs)) in
      (rest ≡ pos (left_over total (r ∷ rs))) × (left_over total (r ∷ rs) < length (r ∷ rs))
remainder_eq total r rs w =
    let (e, p) = positive_sum (sum_ℤ (r ∷ rs)) w.some_positive in
    let (low, high) = remainder_bounds total (pos_part (sum_ℤ (r ∷ rs))) r rs p e in
    let q = nonneg_pos _ low in (q, drop_zero q high)

-- The loop as `allocate` starts it.
distribute_start :
    (k : ℕ) (order : List Part) (shares : List ℤ)
    → k < length order
    → distribute
        (rounds (pos k))
        order
        (if leb_ℤ (pos 0) (pos k) then pos 1 else negsuc 0)
        0
        (pos k)
        shares
      ≡ some (ok (bump_all (take k order) shares))
distribute_start k order shares h =
    let up : leb_ℤ (pos 0) (pos k) ≡ true = ground arith in
    rw up (distribute_lem (rounds (pos k)) k 0 order shares (omega arith) (omega arith))

allocate_shares_lem :
    (total : ℤ) (r : ℤ) (rs : List ℤ)
    → AreWeights (r ∷ rs)
    → allocate_shares total (r ∷ rs) (pos_part (sum_ℤ (r ∷ rs)))
      ≡ some (ok (parts_of total (r ∷ rs)))
unfolding allocate_shares
allocate_shares_lem total r rs w =
    let d = pos_part (sum_ℤ (r ∷ rs)) in
    let (e, small) = remainder_eq total r rs w in
    let enough : left_over total (r ∷ rs) < length (order_of total d (r ∷ rs)) =
      rw (length-order_of total d (r ∷ rs)) small in
    subst
      (λ x.
        distribute (rounds x) (order_of total d (r ∷ rs))
          (if leb_ℤ (pos 0) x then pos 1 else negsuc 0) 0 x (base_shares total d (r ∷ rs))
        ≡ some (ok (parts_of total (r ∷ rs))))
      (sym e) (distribute_start (left_over total (r ∷ rs)) _ _ enough)

is_zero_self : (x : ℤ) → is_zero (x -ℤ x) ≡ true
is_zero_self x = let e : x -ℤ x ≡ pos 0 = omega int_laws in rw e

balance : (t b : ℤ) (k : ℕ) → t -ℤ b ≡ pos k → b +ℤ pos k ≡ t
balance t b k e = rw (← e) (omega int_laws)

-- The entries that get one unit more, and how many they are.
abbrev pub chosen : ℤ → List ℤ → List Part
chosen total rs = take (left_over total rs) (order_of total (pos_part (sum_ℤ rs)) rs)

pub chosen_facts :
    (total : ℤ) (r : ℤ) (rs : List ℤ)
    → AreWeights (r ∷ rs)
    → (length (chosen total (r ∷ rs)) ≡ left_over total (r ∷ rs))
      × AreBelow
          (length (base_shares total (pos_part (sum_ℤ (r ∷ rs))) (r ∷ rs)))
          (chosen total (r ∷ rs))
chosen_facts total r rs w =
    let d = pos_part (sum_ℤ (r ∷ rs)) in
    let (e, small) = remainder_eq total r rs w in
    (
      length-take (left_over total (r ∷ rs)) (order_of total d (r ∷ rs))
          (rw (length-order_of total d (r ∷ rs)) (omega arith)),
      rw (length-base_shares total d (r ∷ rs))
          (All-take (λ p. p.index < length (r ∷ rs)) _ _ (order_of-AreBelow total d (r ∷ rs))),
    )

pub sum-parts_of :
    (total : ℤ) (r : ℤ) (rs : List ℤ)
    → AreWeights (r ∷ rs)
    → sum_ℤ (parts_of total (r ∷ rs)) ≡ total
sum-parts_of total r rs w =
    let (count, below) = chosen_facts total r rs w in
    rw (sum-bump_all (chosen total (r ∷ rs)) _ below, count)
      (balance _ _ _ (remainder_eq total r rs w).0)

pub length-parts_of : (total : ℤ) (rs : List ℤ) → length (parts_of total rs) ≡ length rs
length-parts_of total rs = length-bump_all _ _ ∙ length-base_shares total _ rs

passes :
    (total : ℤ) (shares : List ℤ)
    → sum_ℤ shares ≡ total
    → some (check_balance total shares) ≡ some (ok shares)
unfolding check_balance
passes total shares e = rw (e, is_zero_self total)

-- Behind the guards the loop ends, the check passes, and the parts are those of the specification.
pub allocate_minor_lem :
    (total : ℤ) (r : ℤ) (rs : List ℤ)
    → AreWeights (r ∷ rs)
    → allocate_minor total (r ∷ rs) ≡ some (ok (parts_of total (r ∷ rs)))
unfolding allocate_minor check_balance
allocate_minor_lem total r rs w = rw (w.none_negative) (
    rw (w.some_positive)
      (rw (allocate_shares_lem total r rs w) (passes _ _ (sum-parts_of total r rs w))))
