-- ===== src/Money/Numeral.antt =====
-- The decimal numbers that the services compute with (`MoneyDecimal` of src/common/money/rounding.ts,
-- and the JavaScript numbers that hold amounts of NUMERIC columns): units / 10 ^ places. Sums,
-- differences and products are exact; `to_places` is `toDecimalPlaces(k, MONEY_ROUNDING)`.
use gestion_alquileres_backe.Prelude.{ℕ, ◌+◌, ◌^◌, ◌≡◌, refl, Bool, arith, ◌==◌, if◌then◌else◌}
use gestion_alquileres_backe.Prelude.Int.{ℤ, pos, ◌+ℤ◌, ◌-ℤ◌, ◌*ℤ◌, leb_ℤ, ltb_ℤ, min_ℤ, max_ℤ}
use gestion_alquileres_backe.Money.Decimal.{DecimalLib, round_div, round_div_exact}

pub record Decimal : Type 0 where
  pub units : ℤ
  pub places : ℕ

-- the units of d on a scale of k places more
abbrev pub scaled : Decimal → ℕ → ℤ
scaled d k = d.units *ℤ pos (10 ^ k)

-- an amount of a NUMERIC(n, 2) column
abbrev pub cents : ℤ → Decimal
cents x = record { units = x; places = 2 }

-- a whole number
abbrev pub whole : ℤ → Decimal
whole x = record { units = x; places = 0 }

-- `a.plus(b)` and `a.minus(b)`, on a common scale
unfoldable pub plus : Decimal → Decimal → Decimal
plus a b =
    if a.places == b.places
    then record { units = a.units +ℤ b.units; places = a.places }
    else record { units = scaled a b.places +ℤ scaled b a.places; places = a.places + b.places }

unfoldable pub minus : Decimal → Decimal → Decimal
minus a b =
    if a.places == b.places
    then record { units = a.units -ℤ b.units; places = a.places }
    else record { units = scaled a b.places -ℤ scaled b a.places; places = a.places + b.places }

unfoldable pub times : Decimal → Decimal → Decimal
times a b = record { units = a.units *ℤ b.units; places = a.places + b.places }

-- `a.times(pct).div(100)`
unfoldable pub percent_of : Decimal → Decimal → Decimal
unfolding times
percent_of a pct = let t = times a pct in record t { places = t.places + 2 }

-- `a <= b`, `a < b`
unfoldable pub le : Decimal → Decimal → Bool
le a b =
    if a.places == b.places
    then leb_ℤ a.units b.units
    else leb_ℤ (scaled a b.places) (scaled b a.places)

unfoldable pub lt : Decimal → Decimal → Bool
lt a b =
    if a.places == b.places
    then ltb_ℤ a.units b.units
    else ltb_ℤ (scaled a b.places) (scaled b a.places)

-- `Math.min`, `Math.max`
unfoldable pub min_of : Decimal → Decimal → Decimal
unfolding le
min_of a b = if le a b then a else b

unfoldable pub max_of : Decimal → Decimal → Decimal
unfolding le
max_of a b = if le a b then b else a

module _ ⦃dec : DecimalLib⦄ where
  unfoldable pub to_places : Decimal → ℕ → Decimal
  to_places a k = record { units = round_div (scaled a k) (10 ^ a.places); places = k }

  -- `round2` of the services
  abbrev pub round2 : Decimal → Decimal
  round2 a = to_places a 2

  -- an amount in cents is not changed by rounding it to cents
  pub round2-cents : (x : ℤ) → round2 (cents x) ≡ cents x
  unfolding to_places
  round2-cents x = rw (round_div_exact x 100 (omega arith))

pub plus-cents : (x y : ℤ) → plus (cents x) (cents y) ≡ cents (x +ℤ y)
unfolding plus
plus-cents x y = refl

pub minus-cents : (x y : ℤ) → minus (cents x) (cents y) ≡ cents (x -ℤ y)
unfolding minus
minus-cents x y = refl

pub le-cents : (x y : ℤ) → le (cents x) (cents y) ≡ leb_ℤ x y
unfolding le
le-cents x y = refl

pub lt-cents : (x y : ℤ) → lt (cents x) (cents y) ≡ ltb_ℤ x y
unfolding lt
lt-cents x y = refl

pub min_of-cents : (x y : ℤ) → min_of (cents x) (cents y) ≡ cents (min_ℤ x y)
unfolding min_of min_ℤ
min_of-cents x y = ground arith

pub max_of-cents : (x y : ℤ) → max_of (cents x) (cents y) ≡ cents (max_ℤ x y)
unfolding max_of max_ℤ
max_of-cents x y = ground arith
