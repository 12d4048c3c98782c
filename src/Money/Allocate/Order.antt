-- ===== src/Money/Allocate/Order.antt =====
-- The entries that the loop walks through: each index of the list once, largest fraction first.
use gestion_alquileres_backe.Prelude.{
  ℕ, suc, ◌+◌, ◌≤◌, ◌<◌, ◌≡◌, refl, ap, ◌∙◌, Bool, false, ◌||◌, List, [], ◌∷◌, arith, length, All,
  ◌==◌, take, zero,
}
use gestion_alquileres_backe.Prelude.Int.{ℤ}
use gestion_alquileres_backe.Money.Allocate.{Part, remainders_from, insert_desc, sort_desc}

-- j is the index of an entry
abbrev pub has_index : ℕ → List Part → Bool
has_index j [] = false
has_index j (p ∷ ps) = (j == p.index) || has_index j ps

-- no two entries have one index
abbrev pub AreDistinct : List Part → Type 0
AreDistinct [] = Unit {0}
AreDistinct (p ∷ ps) = (has_index p.index ps ≡ false) × AreDistinct ps

abbrev pub AreBelow : ℕ → List Part → Type 0
AreBelow n = All (λ p. p.index < n)

length-insert_desc : (p : Part) (ps : List Part) → length (insert_desc p ps) ≡ suc (length ps)
unfolding insert_desc
length-insert_desc p [] = refl
length-insert_desc p (q ∷ qs) = ground (arith, length-insert_desc p qs)

has_index-insert_desc :
    (j : ℕ) (p : Part) (ps : List Part)
    → has_index j (insert_desc p ps) ≡ ((j == p.index) || has_index j ps)
unfolding insert_desc
has_index-insert_desc j p [] = refl
has_index-insert_desc j p (q ∷ qs) = ground (arith, has_index-insert_desc j p qs)

insert_desc-AreDistinct :
    (p : Part) (ps : List Part)
    → has_index p.index ps ≡ false
    → AreDistinct ps
    → AreDistinct (insert_desc p ps)
unfolding insert_desc
insert_desc-AreDistinct p [] h d = (refl, tt)
insert_desc-AreDistinct p (q ∷ qs) h d =
    ground (arith, insert_desc-AreDistinct p qs, has_index-insert_desc q.index p qs)

insert_desc-AreBelow :
    (n : ℕ) (p : Part) (ps : List Part)
    → p.index < n
    → AreBelow n ps
    → AreBelow n (insert_desc p ps)
unfolding insert_desc
insert_desc-AreBelow n p [] h d = (h, tt)
insert_desc-AreBelow n p (q ∷ qs) h d = ground (arith, insert_desc-AreBelow n p qs)

has_index-sort_desc : (j : ℕ) (ps : List Part) → has_index j (sort_desc ps) ≡ has_index j ps
unfolding sort_desc
has_index-sort_desc j [] = refl
has_index-sort_desc j (p ∷ ps) =
    ground (arith, has_index-insert_desc j p (sort_desc ps), has_index-sort_desc j ps)

pub length-sort_desc : (ps : List Part) → length (sort_desc ps) ≡ length ps
unfolding sort_desc
length-sort_desc [] = refl
length-sort_desc (p ∷ ps) = length-insert_desc p (sort_desc ps) ∙ ap suc (length-sort_desc ps)

sort_desc-AreDistinct : (ps : List Part) → AreDistinct ps → AreDistinct (sort_desc ps)
unfolding sort_desc
sort_desc-AreDistinct [] d = tt
sort_desc-AreDistinct (p ∷ ps) d =
    insert_desc-AreDistinct p (sort_desc ps) (has_index-sort_desc p.index ps ∙ d.0)
      (sort_desc-AreDistinct ps d.1)

sort_desc-AreBelow : (n : ℕ) (ps : List Part) → AreBelow n ps → AreBelow n (sort_desc ps)
unfolding sort_desc
sort_desc-AreBelow n [] d = tt
sort_desc-AreBelow n (p ∷ ps) d =
    insert_desc-AreBelow n p (sort_desc ps) d.0 (sort_desc-AreBelow n ps d.1)

pub length-remainders_from :
    (i : ℕ) (total : ℤ) (d : ℕ) (rs : List ℤ) → length (remainders_from i total d rs) ≡ length rs
unfolding remainders_from
length-remainders_from i total d [] = refl
length-remainders_from i total d (r ∷ rs) = ap suc (length-remainders_from (suc i) total d rs)

remainders_from-AreBelow :
    (i n : ℕ) (total : ℤ) (d : ℕ) (rs : List ℤ)
    → i + length rs ≤ n
    → AreBelow n (remainders_from i total d rs)
unfolding remainders_from
remainders_from-AreBelow i n total d [] h = tt
remainders_from-AreBelow i n total d (r ∷ rs) h =
    (omega arith, remainders_from-AreBelow (suc i) n total d rs (omega arith))

not-has_index-remainders_from :
    (j i : ℕ) (total : ℤ) (d : ℕ) (rs : List ℤ)
    → j < i
    → has_index j (remainders_from i total d rs) ≡ false
unfolding remainders_from
not-has_index-remainders_from j i total d [] h = refl
not-has_index-remainders_from j i total d (r ∷ rs) h =
    ground (arith, not-has_index-remainders_from j (suc i) total d rs)

remainders_from-AreDistinct :
    (i : ℕ) (total : ℤ) (d : ℕ) (rs : List ℤ) → AreDistinct (remainders_from i total d rs)
unfolding remainders_from
remainders_from-AreDistinct i total d [] = tt
remainders_from-AreDistinct i total d (r ∷ rs) = (
  not-has_index-remainders_from i (suc i) total d rs (omega arith),
  remainders_from-AreDistinct (suc i) total d rs,
)

-- The order in which the loop hands out units.
abbrev pub order_of : ℤ → ℕ → List ℤ → List Part
order_of total d rs = sort_desc (remainders_from 0 total d rs)

pub order_of-AreDistinct : (total : ℤ) (d : ℕ) (rs : List ℤ) → AreDistinct (order_of total d rs)
order_of-AreDistinct total d rs = sort_desc-AreDistinct _ (remainders_from-AreDistinct 0 total d rs)

pub order_of-AreBelow :
    (total : ℤ) (d : ℕ) (rs : List ℤ) → AreBelow (length rs) (order_of total d rs)
order_of-AreBelow total d rs =
    sort_desc-AreBelow (length rs) _
      (remainders_from-AreBelow 0 (length rs) total d rs (omega arith))

pub length-order_of : (total : ℤ) (d : ℕ) (rs : List ℤ) → length (order_of total d rs) ≡ length rs
length-order_of total d rs = length-sort_desc _ ∙ length-remainders_from 0 total d rs

not-has_index-take :
    (j n : ℕ) (ps : List Part) → has_index j ps ≡ false → has_index j (take n ps) ≡ false
not-has_index-take j zero ps h = refl
not-has_index-take j (suc n) [] h = refl
not-has_index-take j (suc n) (p ∷ ps) h = ground (arith, not-has_index-take j n ps)

pub take-AreDistinct : (n : ℕ) (ps : List Part) → AreDistinct ps → AreDistinct (take n ps)
take-AreDistinct zero ps d = tt
take-AreDistinct (suc n) [] d = tt
take-AreDistinct (suc n) (p ∷ ps) d =
    (not-has_index-take p.index n ps d.0, take-AreDistinct n ps d.1)
