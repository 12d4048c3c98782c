-- ===== src/Money/Allocate/Loop.antt =====
-- The loop of `allocate`: with a remainder of k, no larger than the number of entries, it adds one
-- unit at each of the first k entries, and ends.
use gestion_alquileres_backe.Prelude.{
  ℕ, zero, suc, ◌+◌, ◌%◌, ◌≤◌, ◌<◌, ◌≡◌, refl, ap, ◌∙◌, List, [], ◌∷◌, arith, length, ◌==◌, take,
  drop, drop_at, get_or, if◌then◌else◌, some, ok,
}
use native.Mathlib.Numerals.{add-one}
use native.Mathlib.Numerals.{add-one}
use native.Mathlib.Nat.{mod-eq_of_lt}
use gestion_alquileres_backe.Prelude.Int.{ℤ, pos, sum_ℤ, ◌+ℤ◌, ◌-ℤ◌, int_laws}
use gestion_alquileres_backe.Money.Allocate.{Part, bump, distribute}
use gestion_alquileres_backe.Money.Allocate.Order.{has_index, AreDistinct, AreBelow}

-- One unit more at each of the entries.
unfoldable pub bump_all : List Part → List ℤ → List ℤ
bump_all [] shares = shares
bump_all (p ∷ ps) shares = bump_all ps (bump shares p.index (pos 1))

less_one : (k : ℕ) → pos (suc k) -ℤ pos 1 ≡ pos k
less_one k = omega int_laws

pub distribute_lem :
    (fuel k i : ℕ) (order : List Part) (shares : List ℤ)
    → k < fuel
    → i + k ≤ length order
    → distribute fuel order (pos 1) i (pos k) shares
      ≡ some (ok (bump_all (take k (drop i order)) shares))
unfolding distribute bump_all
distribute_lem zero k i order shares f h = elim f [ ]
distribute_lem (suc fuel) zero i order shares f h = refl
distribute_lem (suc fuel) (suc k) i order shares f h =
    let (p, found, rest) = drop_at order i (omega arith) in
    let m : i % length order ≡ i = mod-eq_of_lt (omega arith) in
    rw rest (
      rw (m, distribute)
        (rw (found, distribute)
          (rw (less_one k, add-one i)
            (distribute_lem fuel k (suc i) order (bump shares p.index (pos 1)) (omega arith)
              (omega arith)))))

pub length-bump : (shares : List ℤ) (j : ℕ) (step : ℤ) → length (bump shares j step) ≡ length shares
unfolding bump
length-bump [] j step = refl
length-bump (s ∷ ss) zero step = refl
length-bump (s ∷ ss) (suc j) step = ap suc (length-bump ss j step)

sum-bump :
    (shares : List ℤ) (j : ℕ) (step : ℤ)
    → j < length shares
    → sum_ℤ (bump shares j step) ≡ sum_ℤ shares +ℤ step
unfolding bump sum_ℤ
sum-bump [] j step h = elim h [ ]
sum-bump (s ∷ ss) zero step h = omega int_laws
sum-bump (s ∷ ss) (suc j) step h = rw (sum-bump ss j step (omega arith)) (omega int_laws)

get_or-bump :
    (shares : List ℤ) (j i : ℕ) (step : ℤ)
    → j < length shares
    → get_or (bump shares j step) i (pos 0)
      ≡ (if i == j then get_or shares i (pos 0) +ℤ step else get_or shares i (pos 0))
unfolding bump
get_or-bump [] j i step h = elim h [ ]
get_or-bump (s ∷ ss) zero zero step h = refl
get_or-bump (s ∷ ss) zero (suc i) step h = ground arith
get_or-bump (s ∷ ss) (suc j) zero step h = ground arith
get_or-bump (s ∷ ss) (suc j) (suc i) step h = ground (arith, get_or-bump ss j i step)

pub length-bump_all :
    (ps : List Part) (shares : List ℤ) → length (bump_all ps shares) ≡ length shares
unfolding bump_all
length-bump_all [] shares = refl
length-bump_all (p ∷ ps) shares = length-bump_all ps _ ∙ length-bump shares p.index (pos 1)

-- Each entry adds one unit to the sum.
pub sum-bump_all :
    (ps : List Part) (shares : List ℤ)
    → AreBelow (length shares) ps
    → sum_ℤ (bump_all ps shares) ≡ sum_ℤ shares +ℤ pos (length ps)
unfolding bump_all
sum-bump_all [] shares h = omega int_laws
sum-bump_all (p ∷ ps) shares h =
    let next = bump shares p.index (pos 1) in
    let below : AreBelow (length next) ps = rw (length-bump shares p.index (pos 1)) h.1 in
    rw (sum-bump_all ps next below, sum-bump shares p.index (pos 1) h.0) (omega int_laws)

-- Distinct entries add one unit at their indices, and none elsewhere.
pub get_or-bump_all :
    (ps : List Part) (shares : List ℤ) (j : ℕ)
    → AreDistinct ps
    → AreBelow (length shares) ps
    → get_or (bump_all ps shares) j (pos 0)
      ≡ (if has_index j ps then get_or shares j (pos 0) +ℤ pos 1 else get_or shares j (pos 0))
unfolding bump_all
get_or-bump_all [] shares j d h = refl
get_or-bump_all (p ∷ ps) shares j d h =
    let next = bump shares p.index (pos 1) in
    let below : AreBelow (length next) ps = rw (length-bump shares p.index (pos 1)) h.1 in
    rw (get_or-bump_all ps next j d.1 below)
      (ground (arith, get_or-bump shares p.index j (pos 1) h.0))
