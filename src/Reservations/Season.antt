-- ===== src/Reservations/Season.antt =====
-- src/reservations/season-pricing.ts and season-rules.service.ts: the seasons of a unit and the price of
-- each night of a stay. A date is a day number; the order of YYYY-MM-DD texts is that of the days.
use Prim.Native.Nat.{zero}
use gestion_alquileres_backe.Transaction.{Action, ◌>>◌, throw_when, ◌>>=◌, select, update, query}
use gestion_alquileres_backe.Money.Numeral.{Decimal}
use gestion_alquileres_backe.Prelude.{
  ℕ, List, Bool, Option, leb, [], filter_by, true, ◌++◌, ◌&&◌, none, some, suc, ◌==◌, ◌∷◌,
  if◌then◌else◌, ◌+◌, false, zero, ltb, not, length,
}
pub mod Disjoint
pub mod Calls
pub mod Nights

pub record SeasonRule : Type 0 where
  pub start_date : ℕ
  pub end_date : ℕ
  pub price_per_night : Option Decimal
  pub min_nights : Option ℕ

pub record StayPricing : Type 0 where
  pub nightly_dates : List ℕ
  pub nightly_prices : List Decimal
  pub effective_min_nights : ℕ

abbrev pub covers : ℕ → SeasonRule → Bool
covers date s = leb s.start_date date && leb date s.end_date

-- `seasonForDate`
unfoldable pub season_for_date : ℕ → List SeasonRule → Option SeasonRule
season_for_date date [] = none
season_for_date date (s ∷ ss) = if covers date s then some s else season_for_date date ss

-- `season?.price_per_night ?? basePricePerNight`
abbrev pub price_in : Decimal → Option SeasonRule → Decimal
price_in base none = base
price_in base (some s) = elim s.price_per_night [ none ↦ base | some price ↦ price ]

-- `checkinSeason?.min_nights ?? baseMinNights`
abbrev pub min_nights_in : ℕ → Option SeasonRule → ℕ
min_nights_in base none = base
min_nights_in base (some s) = elim s.min_nights [ none ↦ base | some nights ↦ nights ]

-- the loop, from the night `i`, with `left` nights to go
unfoldable pub nights_from : ℕ → ℕ → ℕ → Decimal → List SeasonRule → List ℕ × List Decimal
nights_from zero i checkin base seasons = ([], [])
nights_from (suc left) i checkin base seasons =
    let (dates, prices) = nights_from left (suc i) checkin base seasons in
    ((checkin + i) ∷ dates, price_in base (season_for_date (checkin + i) seasons) ∷ prices)

-- `resolveStayPricing`
unfoldable pub resolve_stay_pricing : ℕ → ℕ → Decimal → ℕ → List SeasonRule → StayPricing
resolve_stay_pricing checkin nights base base_min seasons =
    let (dates, prices) = nights_from nights 0 checkin base seasons in
    record {
      nightly_dates = dates;
      nightly_prices = prices;
      effective_min_nights = min_nights_in base_min (season_for_date checkin seasons);
    }

-- a row of season_rules
pub record SeasonRow : Type 0 where
  pub id : ℕ
  pub unit_id : ℕ
  pub rule : SeasonRule

pub record SeasonTables : Type 0 where
  pub season_rules : List SeasonRow
  pub next_id : ℕ

pub data SeasonError : Type 0 where
  bad_range overlap season_missing : SeasonError

-- `start_date <= $3 AND end_date >= $2`
abbrev pub overlaps : SeasonRule → SeasonRule → Bool
overlaps new s = leb s.start_date new.end_date && leb new.start_date s.end_date

-- the rows of the unit that `assertNoOverlap` finds
unfoldable pub overlapping : ℕ → SeasonRule → List SeasonRow → List SeasonRow
overlapping unit rule rows = filter_by (λ r. r.unit_id == unit && overlaps rule r.rule) rows

abbrev pub is_empty : {A : Type 0} → List A → Bool
is_empty [] = true
is_empty (x ∷ xs) = false

unfoldable pub insert_season : ℕ → SeasonRule → SeasonTables → SeasonTables
insert_season unit rule t = record {
  season_rules = t.season_rules ++ (record { id = t.next_id; unit_id = unit; rule = rule } ∷ []);
  next_id = suc t.next_id;
}

-- `create`; the queries are not in a transaction
unfoldable pub create_season : ℕ → SeasonRule → Action SeasonTables SeasonError (Unit {0})
create_season unit rule = do
  throw_when (ltb rule.end_date rule.start_date) bad_range
  rows ← select (λ t. overlapping unit rule t.season_rules)
  throw_when (not (is_empty rows)) overlap
  update (insert_season unit rule)

abbrev pub is_season : ℕ → ℕ → SeasonRow → Bool
is_season unit id r = r.id == id && r.unit_id == unit

-- `DELETE FROM season_rules WHERE id = $1 AND unit_id = $2 RETURNING id`, the number of its rows
unfoldable pub delete_season : ℕ → ℕ → SeasonTables → ℕ × SeasonTables
delete_season unit id t = (
  length (filter_by (is_season unit id) t.season_rules),
  record t { season_rules = filter_by (λ r. not (is_season unit id r)) t.season_rules },
)

-- `remove`; `raw_length` is how many entries the result of a DELETE with RETURNING has for a number of
-- rows: this number where TypeORM gives the rows, and 2 where it gives the rows with their number
unfoldable pub remove_season : (ℕ → ℕ) → ℕ → ℕ → Action SeasonTables SeasonError (Unit {0})
remove_season raw_length unit id = do
  deleted ← query (delete_season unit id)
  throw_when (raw_length deleted == 0) season_missing

-- a row before the first that starts later
unfoldable pub insert_by_start : SeasonRow → List SeasonRow → List SeasonRow
insert_by_start r [] = r ∷ []
insert_by_start r (x ∷ xs) =
    let later = insert_by_start r xs in
    if leb r.rule.start_date x.rule.start_date then r ∷ x ∷ xs else x ∷ later

-- `ORDER BY start_date`
unfoldable pub order_by_start : List SeasonRow → List SeasonRow
order_by_start [] = []
order_by_start (r ∷ rs) = insert_by_start r (order_by_start rs)

-- `findByUnit`
unfoldable pub find_by_unit : ℕ → Action SeasonTables SeasonError (List SeasonRow)
find_by_unit unit = select (λ t. order_by_start (filter_by (λ r. r.unit_id == unit) t.season_rules))
