-- ===== src/Money/Value/Minor.antt =====
-- Amounts that stand for a whole number of minor units: what `from_minor_units` makes, `add` and
-- `sum` keep, and `to_minor_units` reads back without loss.
use gestion_alquileres_backe.Money.Numeral.{scaled}
use gestion_alquileres_backe.Prelude.{
  ℕ, zero, suc, ◌+◌, ◌*◌, ◌^◌, ◌<◌, ◌≡◌, refl, sym, ap, ◌∙◌, true, List, [], ◌∷◌, map, Option,
  arith, ok,
}
use gestion_alquileres_backe.Prelude.Int.{
  ℤ, pos, pos_part, neg_part, ◌+ℤ◌, ◌*ℤ◌, int_laws, eq_of_parts, +ℤ_parts, sum_ℤ, +ℤ_assoc,
  mul_pos_parts,
}
use gestion_alquileres_backe.Money.Decimal.{DecimalLib, round_div_exact}
use gestion_alquileres_backe.Money.Currency.{
  Code, code_eq, code_eq_refl, normalize_currency, get_currency_scale,
}
use gestion_alquileres_backe.Money.Value.{
  Money, add, from_minor_units, to_minor_units, sum, sum_from,
}
use mathlib.Core.Path.{ap₂}
use native.Mathlib.Nat.{pow-suc, add-zero, add-suc}

pub pow-pos : (k : ℕ) → 0 < 10 ^ k
pow-pos zero = omega arith
pow-pos (suc k) = let e : 10 ^ suc k ≡ 10 ^ k * 10 = pow-suc 10 k in omega (arith, pow-pos k)

pub pow-add : (j k : ℕ) → 10 ^ (j + k) ≡ 10 ^ j * 10 ^ k
pow-add j zero = simp add-zero (omega arith)
pow-add j (suc k) = rw add-suc (
    omega (
      arith,
      pow-suc 10 (j + k),
      ap (λ (t : ℕ). t * 10) (pow-add j k),
      ap (λ (t : ℕ). 10 ^ j * t) (pow-suc 10 k),
    ))

-- The amount is exactly `minor` units of 10 ^ -scale.
pub record IsMinor (m : Money) (minor : ℤ) : Type 0 where
  pub exact :
      pos_part m.amount.units * 10 ^ get_currency_scale m.currency
        + neg_part minor * 10 ^ m.amount.places
      ≡ neg_part m.amount.units * 10 ^ get_currency_scale m.currency
        + pos_part minor * 10 ^ m.amount.places

pub from_minor_units-IsMinor : (minor : ℤ) (c : Code) → IsMinor (from_minor_units minor c) minor
unfolding from_minor_units
from_minor_units-IsMinor minor c = record { exact = omega arith }

pub IsMinor-to_minor_units :
    ⦃dec : DecimalLib⦄ (m : Money) (minor : ℤ) → IsMinor m minor → to_minor_units m ≡ minor
unfolding to_minor_units
IsMinor-to_minor_units m minor h =
    let f = 10 ^ get_currency_scale m.currency in
    let d = 10 ^ m.amount.places in
    let a = mul_pos_parts m.amount.units f in
    let b = mul_pos_parts minor d in
    let e : m.amount.units *ℤ pos f ≡ minor *ℤ pos d = eq_of_parts _ _ (omega (arith, h.exact)) in
    rw e (round_div_exact minor d (pow-pos m.amount.places))

add_cross :
    (zp zn u v bp bn xp xn yp yn sp sn f p q : ℕ)
    → zp + v * q + bn * p ≡ zn + u * q + bp * p
    → sp + xn + yn ≡ sn + xp + yp
    → u * f + xn * p ≡ v * f + xp * p
    → bp * f + yn * q ≡ bn * f + yp * q
    → zp * f + sn * (p * q) ≡ zn * f + sp * (p * q)
add_cross zp zn u v bp bn xp xn yp yn sp sn f p q e1 e2 h k = omega (
  arith,
  ap (λ (t : ℕ). t * f) e1,
  ap (λ (t : ℕ). t * (p * q)) e2,
  ap (λ (t : ℕ). t * q) h,
  ap (λ (t : ℕ). t * p) k,
)

abbrev sum_of : Money → Money → Money
sum_of a b = record {
  amount = record {
    units = scaled a.amount b.amount.places +ℤ scaled b.amount a.amount.places;
    places = a.amount.places + b.amount.places;
  };
  currency = a.currency;
}

same_code : (a b : Money) → a.currency ≡ b.currency → code_eq a.currency b.currency ≡ true
same_code a b e = rw (← e) (code_eq_refl a.currency)

-- Exact addition: the sum of x minor units and y minor units is x + y minor units.
pub add-IsMinor :
    (a b : Money) (x y : ℤ)
    → a.currency ≡ b.currency
    → IsMinor a x
    → IsMinor b y
    → (m : Money) × (add a b ≡ ok m) × (m.currency ≡ a.currency) × IsMinor m (x +ℤ y)
unfolding add
add-IsMinor a b x y e h k = (sum_of a b, rw (same_code a b e), refl, record { exact = exact })
  where
    exact :
        pos_part (sum_of a b).amount.units * 10 ^ get_currency_scale a.currency
          + neg_part (x +ℤ y) * 10 ^ (a.amount.places + b.amount.places)
        ≡ neg_part (sum_of a b).amount.units * 10 ^ get_currency_scale a.currency
          + pos_part (x +ℤ y) * 10 ^ (a.amount.places + b.amount.places)
    exact =
        let i = mul_pos_parts a.amount.units (10 ^ b.amount.places) in
        let j = mul_pos_parts b.amount.units (10 ^ a.amount.places) in
        let s = +ℤ_parts (scaled a.amount b.amount.places) (scaled b.amount a.amount.places) in
        rw pow-add (
          add_cross _ _ _ _ _ _ _ _ _ _ _ _ _ _ _ (rw (i.0, i.1, j.0, j.1) at s) (+ℤ_parts x y)
            h.exact (rw (← e) at k.exact))

+ℤ_zero : (x : ℤ) → x +ℤ pos 0 ≡ x
+ℤ_zero x = omega int_laws

from_minor_units-currency :
    (u : ℤ) (c : Code) → (from_minor_units u c).currency ≡ normalize_currency c
unfolding from_minor_units
from_minor_units-currency u c = refl

sum_from-IsMinor :
    (c : Code) (us : List ℤ) (m : Money) (x : ℤ)
    → m.currency ≡ normalize_currency c
    → IsMinor m x
    → (r : Money) × (sum_from m (map (λ u. from_minor_units u c) us) ≡ ok r)
      × (r.currency ≡ normalize_currency c)
      × IsMinor r (x +ℤ sum_ℤ us)
unfolding sum_from sum_ℤ
sum_from-IsMinor c [] m x e h = (m, refl, e, rw (+ℤ_zero x) h)
sum_from-IsMinor c (u ∷ us) m x e h =
    let (m', called, same, exact) =
      add-IsMinor m (from_minor_units u c) x u (e ∙ sym (from_minor_units-currency u c)) h
        (from_minor_units-IsMinor u c) in
    let (r, rest, code, total) = sum_from-IsMinor c us m' (x +ℤ u) (same ∙ e) exact in
    (r, rw called rest, code, rw (← +ℤ_assoc x u (sum_ℤ us)) total)

-- `Money.sum` of amounts given in minor units of one currency: it returns, and what it returns is
-- read back as the sum of those units, none lost to a rounding.
pub to_minor_units-sum :
    ⦃dec : DecimalLib⦄ (c : Code) (u : ℤ) (us : List ℤ) (if_empty : Option Code)
    → (r : Money) × (sum (map (λ v. from_minor_units v c) (u ∷ us)) if_empty ≡ ok r)
      × (to_minor_units r ≡ sum_ℤ (u ∷ us))
unfolding sum sum_ℤ
to_minor_units-sum c u us if_empty =
    let (r, called, code, exact) =
      sum_from-IsMinor c us (from_minor_units u c) u (from_minor_units-currency u c)
        (from_minor_units-IsMinor u c) in
    (r, called, IsMinor-to_minor_units r (u +ℤ sum_ℤ us) exact)

-- What is written as minor units is read back as the same number.
pub to_minor_units-from_minor_units :
    ⦃dec : DecimalLib⦄ (u : ℤ) (c : Code) → to_minor_units (from_minor_units u c) ≡ u
to_minor_units-from_minor_units u c =
    IsMinor-to_minor_units (from_minor_units u c) u (from_minor_units-IsMinor u c)

pub to_minor_units-map :
    ⦃dec : DecimalLib⦄ (c : Code) (us : List ℤ)
    → map to_minor_units (map (λ u. from_minor_units u c) us) ≡ us
to_minor_units-map c [] = refl
to_minor_units-map c (u ∷ us) =
    ap₂ (λ x xs. x ∷ xs) (to_minor_units-from_minor_units u c) (to_minor_units-map c us)
