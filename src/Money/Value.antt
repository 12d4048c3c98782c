-- ===== src/Money/Value.antt =====
-- src/common/money/money.ts: the immutable value object `Money`. Its amount is a decimal numeral,
-- kept exact; only `round` and `to_minor_units` go to the scale of the currency.
pub mod Minor
use gestion_alquileres_backe.Prelude.{
  ◌>>=◌, ◌>>◌, ℕ, ◌+◌, ◌^◌, Bool, not, ◌&&◌, List, [], ◌∷◌, Option, none, some, if◌then◌else◌,
  Result, ok, err, throw_if,
}
use gestion_alquileres_backe.Prelude.Int.{ℤ, pos, neg, ◌+ℤ◌, ◌-ℤ◌, ◌*ℤ◌, leb_ℤ, ltb_ℤ, is_zero}
use gestion_alquileres_backe.Money.Decimal.{DecimalLib, round_div}
use gestion_alquileres_backe.Money.Numeral.{Decimal, scaled}
use gestion_alquileres_backe.Money.Currency.{Code, code_eq, normalize_currency, get_currency_scale}

pub record Money : Type 0 where
  pub amount : Decimal
  pub currency : Code

pub data MoneyError : Type 0 where
  currency_mismatch empty_sum : MoneyError

-- `a.cmp(b)`, on the common denominator
abbrev decimal_le : Decimal → Decimal → Bool
decimal_le a b = leb_ℤ (scaled a b.places) (scaled b a.places)

abbrev decimal_lt : Decimal → Decimal → Bool
decimal_lt a b = ltb_ℤ (scaled a b.places) (scaled b a.places)

-- `Money.of`; the numeral is finite
unfoldable pub of : Decimal → Code → Money
of value code = record { amount = value; currency = normalize_currency code }

unfoldable pub zero_money : Code → Money
zero_money code = record {
  amount = record { units = pos 0; places = 0 };
  currency = normalize_currency code;
}

unfoldable pub from_minor_units : ℤ → Code → Money
from_minor_units minor code =
    let c = normalize_currency code in
    record { amount = record { units = minor; places = get_currency_scale c }; currency = c }

-- `Money.fromDb`: a missing value is zero
unfoldable pub from_db : Option Decimal → Code → Money
unfolding of zero_money
from_db none code = zero_money code
from_db (some value) code = of value code

unfoldable pub assert_same_currency : Money → Money → Result MoneyError (Unit {0})
assert_same_currency a b = throw_if (not (code_eq a.currency b.currency)) currency_mismatch

unfoldable pub add : Money → Money → Result MoneyError Money
unfolding assert_same_currency
add a b = do
  assert_same_currency a b
  ok (record {
    amount = record {
      units = scaled a.amount b.amount.places +ℤ scaled b.amount a.amount.places;
      places = a.amount.places + b.amount.places;
    };
    currency = a.currency;
  })

unfoldable pub subtract : Money → Money → Result MoneyError Money
unfolding assert_same_currency
subtract a b = do
  assert_same_currency a b
  ok (record {
    amount = record {
      units = scaled a.amount b.amount.places -ℤ scaled b.amount a.amount.places;
      places = a.amount.places + b.amount.places;
    };
    currency = a.currency;
  })

unfoldable pub multiply : Money → Decimal → Money
multiply a factor = record a {
  amount = record {
    units = a.amount.units *ℤ factor.units;
    places = a.amount.places + factor.places;
  };
}

-- `this * (pct / 100)`
unfoldable pub percentage : Money → Decimal → Money
percentage a pct = record a {
  amount = record {
    units = a.amount.units *ℤ pct.units;
    places = a.amount.places + (pct.places + 2);
  };
}

unfoldable pub negated : Money → Money
negated a = record a { amount = record { units = neg a.amount.units; places = a.amount.places } }

unfoldable pub abs : Money → Money
unfolding negated
abs a = if ltb_ℤ a.amount.units (pos 0) then negated a else a

-- `Money.sum`
sum_from : Money → List Money → Result MoneyError Money
sum_from acc [] = ok acc
sum_from acc (m ∷ ms) = do acc' ← add acc m; sum_from acc' ms

unfoldable pub sum : List Money → Option Code → Result MoneyError Money
unfolding sum_from zero_money
sum [] none = err empty_sum
sum [] (some code) = ok (zero_money code)
sum (m ∷ ms) currency_if_empty = sum_from m ms

module _ ⦃dec : DecimalLib⦄ where
  unfoldable pub to_minor_units : Money → ℤ
  to_minor_units a =
      round_div (scaled a.amount (get_currency_scale a.currency)) (10 ^ a.amount.places)

  unfoldable pub round : Money → Money
  unfolding to_minor_units
  round a = record a {
    amount = record { units = to_minor_units a; places = get_currency_scale a.currency };
  }

module _ ⦃dec : DecimalLib⦄ where
  -- `toNumber`: the amount at the scale of its currency
  unfoldable pub to_number : Money → Decimal
  unfolding round
  to_number a = (round a).amount

unfoldable pub equals : Money → Money → Bool
equals a b =
    code_eq a.currency b.currency && (decimal_le a.amount b.amount && decimal_le b.amount a.amount)

unfoldable pub greater_than : Money → Money → Result MoneyError Bool
unfolding assert_same_currency
greater_than a b = do assert_same_currency a b; ok (decimal_lt b.amount a.amount)

unfoldable pub greater_than_or_equal : Money → Money → Result MoneyError Bool
unfolding assert_same_currency
greater_than_or_equal a b = do assert_same_currency a b; ok (decimal_le b.amount a.amount)

unfoldable pub less_than : Money → Money → Result MoneyError Bool
unfolding assert_same_currency
less_than a b = do assert_same_currency a b; ok (decimal_lt a.amount b.amount)

unfoldable pub less_than_or_equal : Money → Money → Result MoneyError Bool
unfolding assert_same_currency
less_than_or_equal a b = do assert_same_currency a b; ok (decimal_le a.amount b.amount)

unfoldable pub is_zero_money : Money → Bool
is_zero_money a = is_zero a.amount.units

unfoldable pub is_negative : Money → Bool
is_negative a = ltb_ℤ a.amount.units (pos 0) && not (is_zero a.amount.units)

unfoldable pub is_positive : Money → Bool
is_positive a = leb_ℤ (pos 0) a.amount.units && not (is_zero a.amount.units)
