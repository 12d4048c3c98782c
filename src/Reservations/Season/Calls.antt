-- ===== src/Reservations/Season/Calls.antt =====
-- Seasons of src/reservations/season-rules.service.ts that are created, removed and listed.
use gestion_alquileres_backe.Transaction.Commit.{query-Keeps}
use gestion_alquileres_backe.Transaction.Rules.{Keeps, select-Keeps, >>=-Keeps, throw_when-Keeps}
use gestion_alquileres_backe.Transaction.{Session}
use gestion_alquileres_backe.Reservations.Season.{
  SeasonRow, SeasonRule, SeasonTables, create_season, remove_season, find_by_unit, delete_season,
  overlaps, order_by_start, is_season, season_missing,
}
use gestion_alquileres_backe.Reservations.Season.Disjoint.{
  seasons_of, AreDisjoint, create_season-AreDisjoint,
}
use gestion_alquileres_backe.Prelude.{
  ℕ, List, ◌==◌, Bool, ◌≡◌, ◌∷◌, [], true, false, Bool-cases, filter_by, inl, inr, refl, All, sym,
  not, ◌⊎◌,
}
use mathlib.Core.Path.{subst}

-- a call of SeasonRulesService
pub data SeasonCall : Type 0 where
  creates : ℕ → SeasonRule → SeasonCall
  removes : ℕ → ℕ → SeasonCall
  lists : ℕ → SeasonCall

module _ (raw_length : ℕ → ℕ) where
  -- the session behind a call, whether it returned or threw
  unfoldable pub season_call : SeasonCall → Session SeasonTables → Session SeasonTables
  season_call (creates unit rule) s = (create_season unit rule s).1
  season_call (removes unit id) s = (remove_season raw_length unit id s).1
  season_call (lists unit) s = (find_by_unit unit s).1

  unfoldable pub season_calls : List SeasonCall → Session SeasonTables → Session SeasonTables
  season_calls [] s = s
  season_calls (c ∷ cs) s = season_calls cs (season_call c s)

mine_first :
    (u : ℕ) (r : SeasonRow) (rs : List SeasonRow)
    → r.unit_id == u ≡ true
    → seasons_of u (r ∷ rs) ≡ r.rule ∷ seasons_of u rs
unfolding seasons_of
mine_first u r rs e = rw (filter_by, e) refl

other_first :
    (u : ℕ) (r : SeasonRow) (rs : List SeasonRow)
    → r.unit_id == u ≡ false
    → seasons_of u (r ∷ rs) ≡ seasons_of u rs
unfolding seasons_of
other_first u r rs e = rw (filter_by, e) refl

-- what holds of a list of seasons holds of the later ones
split_first :
    (Q : List SeasonRule → Type 0) (u : ℕ) (r : SeasonRow) (rs : List SeasonRow)
    → ((x : SeasonRule) (xs : List SeasonRule) → Q (x ∷ xs) → Q xs)
    → Q (seasons_of u (r ∷ rs))
    → Q (seasons_of u rs)
split_first Q u r rs f h = elim (Bool-cases (r.unit_id == u)) [
  | inl mine ↦ f r.rule (seasons_of u rs) (subst Q (mine_first u r rs mine) h)
  | inr other ↦ subst Q (other_first u r rs other) h
]

filter_rows_kept :
    (p : SeasonRow → Bool) (r : SeasonRow) (rs : List SeasonRow)
    → p r ≡ true
    → filter_by p (r ∷ rs) ≡ r ∷ filter_by p rs
filter_rows_kept p r rs h = rw (h, filter_by) refl

filter_rows_gone :
    (p : SeasonRow → Bool) (r : SeasonRow) (rs : List SeasonRow)
    → p r ≡ false
    → filter_by p (r ∷ rs) ≡ filter_by p rs
filter_rows_gone p r rs h = rw (h, filter_by) refl

-- what holds of the rows that are left, with the first and without it
filter_first :
    (Q : List SeasonRule → Type 0) (p : SeasonRow → Bool) (u : ℕ) (r : SeasonRow)
    (rs : List SeasonRow)
    → Q (seasons_of u (r ∷ rs))
    → Q (seasons_of u (filter_by p rs))
    → (Q (r.rule ∷ seasons_of u rs) → Q (r.rule ∷ seasons_of u (filter_by p rs)))
    → Q (seasons_of u (filter_by p (r ∷ rs)))
filter_first Q p u r rs h rest f = elim (Bool-cases (p r)) [
  | inl stays ↦
      subst (λ l. Q (seasons_of u l)) (sym (filter_rows_kept p r rs stays))
        (with_row (Bool-cases (r.unit_id == u)))
  | inr goes ↦ subst (λ l. Q (seasons_of u l)) (sym (filter_rows_gone p r rs goes)) rest
]
  where
    with_row :
        (r.unit_id == u ≡ true) ⊎ (r.unit_id == u ≡ false) → Q (seasons_of u (r ∷ filter_by p rs))
    with_row (inl mine) =
        subst Q (sym (mine_first u r (filter_by p rs) mine))
          (f (subst Q (mine_first u r rs mine) h))
    with_row (inr other) = subst Q (sym (other_first u r (filter_by p rs) other)) rest

module _ (p : SeasonRow → Bool) (u : ℕ) where
  filter-All :
      (P : SeasonRule → Type 0) (rows : List SeasonRow)
      → All P (seasons_of u rows)
      → All P (seasons_of u (filter_by p rows))
  filter-All P [] h = h
  filter-All P (r ∷ rs) h =
      let rest = filter-All P rs (split_first (All P) u r rs (λ x xs k. k.1) h) in
      filter_first (All P) p u r rs h rest (λ k. (k.0, rest))

  filter-AreDisjoint :
      (rows : List SeasonRow)
      → AreDisjoint (seasons_of u rows)
      → AreDisjoint (seasons_of u (filter_by p rows))
  filter-AreDisjoint [] h = h
  filter-AreDisjoint (r ∷ rs) h =
      let rest = filter-AreDisjoint rs (split_first AreDisjoint u r rs (λ x xs k. k.1) h) in
      filter_first AreDisjoint p u r rs h rest
        (λ k. (filter-All (λ x. overlaps x r.rule ≡ false) rs k.0, rest))

module _ (raw_length : ℕ → ℕ) (u : ℕ) where
  abbrev Apart : SeasonTables → Type 0
  Apart t = AreDisjoint (seasons_of u t.season_rules)

  remove_season-Keeps : (unit id : ℕ) → Keeps Apart (remove_season raw_length unit id)
  unfolding remove_season delete_season
  remove_season-Keeps unit id =
      >>=-Keeps
        (query-Keeps (delete_season unit id)
          (λ t h. filter-AreDisjoint (λ r. not (is_season unit id r)) u t.season_rules h))
        (λ n. throw_when-Keeps (raw_length n == 0) season_missing)

  find_by_unit-Keeps : (unit : ℕ) → Keeps Apart (find_by_unit unit)
  unfolding find_by_unit
  find_by_unit-Keeps unit =
      select-Keeps
        (λ (t : SeasonTables). order_by_start (filter_by (λ r. r.unit_id == unit) t.season_rules))

  season_call-Apart :
      (c : SeasonCall) (s : Session SeasonTables)
      → Apart s.store
      → Apart (season_call raw_length c s).store
  unfolding season_call
  season_call-Apart (creates unit rule) s h = create_season-AreDisjoint u unit rule s h
  season_call-Apart (removes unit id) s h = (remove_season-Keeps unit id).keep s h
  season_call-Apart (lists unit) s h = (find_by_unit-Keeps unit).keep s h

  -- Whatever seasons are created, removed and listed, in whatever order and whichever calls and queries
  -- fail, the seasons of a unit that did not overlap do not overlap.
  pub season_calls_keep_disjoint :
      (calls : List SeasonCall) (s : Session SeasonTables)
      → AreDisjoint (seasons_of u s.store.season_rules)
      → AreDisjoint (seasons_of u (season_calls raw_length calls s).store.season_rules)
  unfolding season_calls
  season_calls_keep_disjoint [] s h = h
  season_calls_keep_disjoint (c ∷ cs) s h =
      season_calls_keep_disjoint cs (season_call raw_length c s) (season_call-Apart c s h)
