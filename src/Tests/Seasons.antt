-- ===== src/Tests/Seasons.antt =====
-- Runs of src/reservations/season-pricing.ts and season-rules.service.ts: a high and a low season.
use gestion_alquileres_backe.Reservations.Season.Calls.{
  season_calls, creates, removes, lists, season_calls_keep_disjoint,
}
use gestion_alquileres_backe.Reservations.Season.Nights.{stay_pricing_by_season}
use gestion_alquileres_backe.Prelude.Int.{pos}
use gestion_alquileres_backe.Money.Numeral.{cents}
use gestion_alquileres_backe.Prelude.{
  some, none, ◌∷◌, false, [], length, refl, ◌≡◌, get_elem?, ◌+◌, arith, ok,
}
use gestion_alquileres_backe.Transaction.{Session, select, query}
use gestion_alquileres_backe.Reservations.Season.Disjoint.{AreDisjoint, seasons_of}
use gestion_alquileres_backe.Reservations.Season.{
  SeasonRule, resolve_stay_pricing, SeasonTables, price_in, find_by_unit, order_by_start,
  insert_by_start,
}

abbrev high : SeasonRule
high = record {
  start_date = 100;
  end_date = 110;
  price_per_night = some (cents (pos 15000));
  min_nights = some 3;
}

abbrev low : SeasonRule
low = record { start_date = 120; end_date = 130; price_per_night = none; min_nights = none }

apart : AreDisjoint (low ∷ high ∷ [])
apart = ((refl, tt), (tt, tt))

stay_pricing_by_season_example :
    let stay = resolve_stay_pricing 109 3 (cents (pos 10000)) 1 (low ∷ high ∷ []) in
    (length stay.nightly_dates ≡ 3)
    × (length stay.nightly_prices ≡ 3)
    × (get_elem? stay.nightly_dates 1 ≡ some (109 + 1))
    × (get_elem? stay.nightly_prices 1 ≡ some (price_in (cents (pos 10000)) (some high)))
stay_pricing_by_season_example =
    stay_pricing_by_season 109 3 (cents (pos 10000)) 1 (low ∷ high ∷ []) 1 1 high apart
      (omega arith) refl refl

abbrev tables : SeasonTables
tables = record { season_rules = record { id = 1; unit_id = 3; rule = high } ∷ []; next_id = 2 }

abbrev session : Session SeasonTables
session = record { store = tables; queries = 0; fails = λ n. false }

start : AreDisjoint (seasons_of 3 tables.season_rules)
unfolding seasons_of
start = (tt, tt)

season_calls_keep_disjoint_example : AreDisjoint (
    seasons_of 3
      (season_calls
        (λ n. 2)
        (creates 3 low ∷ removes 3 1 ∷ creates 3 high ∷ lists 3 ∷ [])
        session).store.season_rules)
season_calls_keep_disjoint_example =
    season_calls_keep_disjoint (λ n. 2) 3
      (creates 3 low ∷ removes 3 1 ∷ creates 3 high ∷ lists 3 ∷ []) session start

abbrev two_seasons : Session SeasonTables
two_seasons = record {
  store = record {
    season_rules =
        record { id = 1; unit_id = 3; rule = low }
        ∷ record { id = 2; unit_id = 4; rule = low }
        ∷ record { id = 3; unit_id = 3; rule = high }
        ∷ [];
    next_id = 4;
  };
  queries = 0;
  fails = λ n. false;
}

-- The earlier season comes before the one that was created first.
by_start :
    (find_by_unit 3 two_seasons).0
    ≡ ok (
        record { id = 3; unit_id = 3; rule = high }
        ∷ record { id = 1; unit_id = 3; rule = low }
        ∷ [])
unfolding find_by_unit select query order_by_start insert_by_start
by_start = refl
