-- ===== src/Money/Allocate/Floor.antt =====
-- Rounding every share down leaves a remainder that is never negative and smaller than the number
-- of parts.
use gestion_alquileres_backe.Prelude.{
  ℕ, ◌+◌, ◌*◌, ◌≤◌, ◌<◌, ◌≡◌, ◌%◌, ap, List, [], ◌∷◌, arith, length, length-map,
}
use gestion_alquileres_backe.Prelude.Int.{
  ℤ, pos, negsuc, sum_ℤ, pos_part, neg_part, +ℤ_parts, -ℤ_parts, *ℤ_parts, ◌*ℤ◌, ◌-ℤ◌,
}
use gestion_alquileres_backe.Money.Allocate.{floor_div, frac_of, base_shares}
use native.Mathlib.Nat.{div-add-mod, mod-lt}

pub floor_div_lem :
    (x : ℤ) (d : ℕ)
    → 0 < d
    → (pos_part x + neg_part (floor_div x d) * d
        ≡ neg_part x + pos_part (floor_div x d) * d + frac_of x d)
      × (frac_of x d < d)
unfolding floor_div frac_of
floor_div_lem (pos n) d p = let r : n % d < d = mod-lt n p in (grind (arith, div-add-mod n d), r)
floor_div_lem (negsuc n) d p =
    let r : n % d < d = mod-lt n p in (grind (arith, div-add-mod n d), omega arith)

abbrev sum_fracs : ℤ → ℕ → List ℤ → ℕ
sum_fracs total d [] = 0
sum_fracs total d (r ∷ rs) = frac_of (total *ℤ r) d + sum_fracs total d rs

sum_fracs-le :
    (total : ℤ) (d : ℕ) (rs : List ℤ) → 0 < d → sum_fracs total d rs + length rs ≤ length rs * d
sum_fracs-le total d [] p = omega arith
sum_fracs-le total d (r ∷ rs) p =
    omega (arith, (floor_div_lem (total *ℤ r) d p).1, sum_fracs-le total d rs p)

shares_cross_step :
    (tp tn rp rn sp sn up un xp xn fp fn qp qn vp vn d f g : ℕ)
    → up + rn + sn ≡ un + rp + sp
    → xp + (tp * rn + tn * rp) ≡ xn + (tp * rp + tn * rn)
    → xp + fn * d ≡ xn + fp * d + f
    → vp + fn + qn ≡ vn + fp + qp
    → tp * sp + tn * sn + qn * d ≡ tp * sn + tn * sp + qp * d + g
    → tp * up + tn * un + vn * d ≡ tp * un + tn * up + vp * d + (f + g)
shares_cross_step tp tn rp rn sp sn up un xp xn fp fn qp qn vp vn d f g e1 e2 e3 e4 e5 =
    omega (arith, ap (λ (t : ℕ). tp * t) e1, ap (λ (t : ℕ). tn * t) e1, ap (λ (t : ℕ). t * d) e4)

-- total * sum of ratios = (sum of the shares) * d + (sum of the fractions), by parts
shares_cross :
    (total : ℤ) (d : ℕ) (rs : List ℤ)
    → 0 < d
    → pos_part total * pos_part (sum_ℤ rs)
        + neg_part total * neg_part (sum_ℤ rs)
        + neg_part (sum_ℤ (base_shares total d rs)) * d
      ≡ pos_part total * neg_part (sum_ℤ rs)
        + neg_part total * pos_part (sum_ℤ rs)
        + pos_part (sum_ℤ (base_shares total d rs)) * d
        + sum_fracs total d rs
unfolding sum_ℤ base_shares
shares_cross total d [] p = omega arith
shares_cross total d (r ∷ rs) p =
    let x = total *ℤ r in
    shares_cross_step _ _ _ _ _ _ _ _ _ _ _ _ _ _ _ _ _ _ _ (+ℤ_parts r (sum_ℤ rs))
      (*ℤ_parts total r) (floor_div_lem x d p).0
      (+ℤ_parts (floor_div x d) (sum_ℤ (base_shares total d rs))) (shares_cross total d rs p)

scaled_le : (a b d f : ℕ) → 0 < d → b * d ≡ a * d + f → a ≤ b
scaled_le a b d f p e = grind arith

scaled_lt : (a b d : ℕ) → b * d < a * d → b < a
scaled_lt a b d h = grind arith

remainder_cross :
    (tp tn qp qn zp zn d f n : ℕ)
    → 0 < d
    → tp * d + qn * d ≡ tn * d + qp * d + f
    → zp + tn + qp ≡ zn + tp + qn
    → f + n ≤ n * d
    → 0 < n
    → (zn ≤ zp) × (zp < zn + n)
remainder_cross tp tn qp qn zp zn d f n p e1 e2 e3 e4 =
    let e : zp * d ≡ zn * d + f = omega (arith, ap (λ (t : ℕ). t * d) e2) in
    (scaled_le zn zp d f p e, scaled_lt (zn + n) zp d (omega arith))

-- The remainder that the loop distributes: 0 ≤ remainder < number of parts.
pub remainder_bounds :
    (total : ℤ) (d : ℕ) (r : ℤ) (rs : List ℤ)
    → 0 < d
    → sum_ℤ (r ∷ rs) ≡ pos d
    → let rest = total -ℤ sum_ℤ (base_shares total d (r ∷ rs)) in
      (neg_part rest ≤ pos_part rest) × (pos_part rest < neg_part rest + length (r ∷ rs))
remainder_bounds total d r rs p e =
    let shared = sum_ℤ (base_shares total d (r ∷ rs)) in
    let rest = total -ℤ shared in
    let h = rw e at (shares_cross total d (r ∷ rs) p) in
    remainder_cross (pos_part total) (neg_part total) (pos_part shared) (neg_part shared)
      (pos_part rest) (neg_part rest) d (sum_fracs total d (r ∷ rs)) (length (r ∷ rs)) p
      (omega (arith, h)) (-ℤ_parts total shared) (sum_fracs-le total d (r ∷ rs) p) (omega arith)

pub length-base_shares :
    (total : ℤ) (d : ℕ) (rs : List ℤ) → length (base_shares total d rs) ≡ length rs
unfolding base_shares
length-base_shares total d rs = length-map _ rs
