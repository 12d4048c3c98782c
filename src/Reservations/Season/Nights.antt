-- ===== src/Reservations/Season/Nights.antt =====
-- The price of each night is that of the season it falls in.
use mathlib.Core.Path.{subst}
use Prim.Native.Nat.{zero}
use gestion_alquileres_backe.Reservations.Season.Disjoint.{AreDisjoint}
use gestion_alquileres_backe.Money.Numeral.{Decimal}
use gestion_alquileres_backe.Prelude.{
  ℕ, List, ◌<◌, get_elem?, ◌≡◌, some, ◌+◌, true, ◌∷◌, suc, [], zero, All, arith, length, false, sym,
  ◌∙◌, refl, ap,
}
use gestion_alquileres_backe.Reservations.Season.{
  season_for_date, nights_from, SeasonRule, covers, price_in, overlaps, resolve_stay_pricing,
}

just : {x y : SeasonRule} → some x ≡ some y → x ≡ y
just e = cc

All-get :
    (P : SeasonRule → Type 0) (xs : List SeasonRule) (k : ℕ) (s : SeasonRule)
    → All P xs
    → get_elem? xs k ≡ some s
    → P s
All-get P [] k s h e = cc
All-get P (x ∷ xs) zero s h e = subst P (just e) h.0
All-get P (x ∷ xs) (suc k) s h e = All-get P xs k s h.1 e

-- two seasons that cover a day share it
common_day :
    (date : ℕ) (s x : SeasonRule)
    → overlaps s x ≡ false
    → covers date s ≡ true
    → covers date x ≡ false
common_day date s x h c = ground arith

-- a season of the list that covers the date is the one that is found
found_season :
    (date : ℕ) (seasons : List SeasonRule) (k : ℕ) (s : SeasonRule)
    → AreDisjoint seasons
    → get_elem? seasons k ≡ some s
    → covers date s ≡ true
    → season_for_date date seasons ≡ some s
unfolding season_for_date
found_season date [] k s d e c = cc
found_season date (x ∷ xs) zero s d e c =
    subst (λ y. season_for_date date (y ∷ xs) ≡ some s) (sym (just e))
      (rw (season_for_date, c) refl)
found_season date (x ∷ xs) (suc k) s d e c =
    rw (season_for_date, common_day date s x (All-get (λ y. overlaps y x ≡ false) xs k s d.0 e) c)
      (found_season date xs k s d.1 e c)

nights_from-get :
    (left i j checkin : ℕ) (base : Decimal) (seasons : List SeasonRule)
    → j < left
    → (get_elem? (nights_from left i checkin base seasons).0 j ≡ some (checkin + (i + j)))
      × (get_elem? (nights_from left i checkin base seasons).1 j
          ≡ some (price_in base (season_for_date (checkin + (i + j)) seasons)))
unfolding nights_from
nights_from-get zero i j checkin base seasons h = absurd (omega arith)
nights_from-get (suc left) i zero checkin base seasons h =
    let n : i + 0 ≡ i = omega arith in rw n (refl, refl)
nights_from-get (suc left) i (suc j) checkin base seasons h =
    let n : i + suc j ≡ suc i + j = omega arith in
    rw n (nights_from-get left (suc i) j checkin base seasons (omega arith))

nights_from-length :
    (left i checkin : ℕ) (base : Decimal) (seasons : List SeasonRule)
    → (length (nights_from left i checkin base seasons).0 ≡ left)
      × (length (nights_from left i checkin base seasons).1 ≡ left)
unfolding nights_from
nights_from-length zero i checkin base seasons = (refl, refl)
nights_from-length (suc left) i checkin base seasons =
    let (a, b) = nights_from-length left (suc i) checkin base seasons in
    (omega (arith, a), omega (arith, b))

-- `resolveStayPricing` gives one date and one price for each night. The night `j` of the stay is `j`
-- days after the check-in, and when the seasons do not overlap and one of them, wherever it stands in
-- the list, covers that day, its price is the season's, or the base price when the season has none.
pub stay_pricing_by_season :
    (checkin nights : ℕ) (base : Decimal) (base_min : ℕ) (seasons : List SeasonRule) (j k : ℕ)
    (s : SeasonRule)
    → AreDisjoint seasons
    → j < nights
    → get_elem? seasons k ≡ some s
    → covers (checkin + j) s ≡ true
    → let stay = resolve_stay_pricing checkin nights base base_min seasons in
      (length stay.nightly_dates ≡ nights)
      × (length stay.nightly_prices ≡ nights)
      × (get_elem? stay.nightly_dates j ≡ some (checkin + j))
      × (get_elem? stay.nightly_prices j ≡ some (price_in base (some s)))
unfolding resolve_stay_pricing
stay_pricing_by_season checkin nights base base_min seasons j k s d h e c =
    let (dates, prices) = nights_from-length nights 0 checkin base seasons in
    let (date, price) = nights_from-get nights 0 j checkin base seasons h in
    let n : 0 + j ≡ j = omega arith in
    (
      dates,
      prices,
      subst (λ x. get_elem? (nights_from nights 0 checkin base seasons).0 j ≡ some (checkin + x)) n
          date,
      price
          ∙ ap (λ x. some (price_in base (season_for_date (checkin + x) seasons))) n
          ∙ ap (λ x. some (price_in base x)) (found_season (checkin + j) seasons k s d e c),
    )
