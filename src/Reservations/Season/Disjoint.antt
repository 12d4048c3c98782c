-- ===== src/Reservations/Season/Disjoint.antt =====
-- The seasons of a unit do not overlap.
use gestion_alquileres_backe.Transaction.Commit.{throw_when->>-EndsIn}
use gestion_alquileres_backe.Transaction.Rules.{
  >>-Keeps, throw_when-Keeps, select->>=-Keeps, update-EndsIn,
}
use gestion_alquileres_backe.Transaction.{Session}
use mathlib.Core.Path.{subst}
use gestion_alquileres_backe.Reservations.Season.{
  SeasonRule, overlapping, SeasonRow, overlaps, is_empty, create_season, insert_season,
  SeasonTables, bad_range, overlap,
}
use gestion_alquileres_backe.Prelude.{
  List, ℕ, ◌∷◌, All, map, ◌++◌, ◌≡◌, filter_by, [], false, ◌==◌, true, if◌then◌else◌, Bool, ◌&&◌,
  Bool-cases, arith, inl, not, refl, inr, ap, ◌∙◌, sym,
}

-- No two seasons of the list share a day.
abbrev pub AreDisjoint : List SeasonRule → Type 0
AreDisjoint [] = Unit {0}
AreDisjoint (s ∷ ss) = All (λ x. overlaps x s ≡ false) ss × AreDisjoint ss

-- the seasons of a unit
unfoldable pub seasons_of : ℕ → List SeasonRow → List SeasonRule
seasons_of unit rows =
    map (λ (r : SeasonRow). r.rule) (filter_by (λ (r : SeasonRow). r.unit_id == unit) rows)

All-snoc :
    (P : SeasonRule → Type 0) (xs : List SeasonRule) (x : SeasonRule)
    → All P xs
    → P x
    → All P (xs ++ (x ∷ []))
All-snoc P [] x h k = (k, tt)
All-snoc P (y ∷ ys) x h k = (h.0, All-snoc P ys x h.1 k)

append-AreDisjoint :
    (xs : List SeasonRule) (x : SeasonRule)
    → AreDisjoint xs
    → All (λ s. overlaps x s ≡ false) xs
    → AreDisjoint (xs ++ (x ∷ []))
append-AreDisjoint [] x h k = (tt, tt)
append-AreDisjoint (y ∷ ys) x h k =
    (All-snoc (λ z. overlaps z y ≡ false) ys x h.0 k.0, append-AreDisjoint ys x h.1 k.1)

-- an empty result has no row of its own
kept : Bool → SeasonRow → List SeasonRow → List SeasonRow
kept b x xs = elim b as (λ _. List SeasonRow) [ true ↦ x ∷ xs | false ↦ xs ]

skipped :
    (b : Bool) (x : SeasonRow) (xs : List SeasonRow)
    → is_empty (kept b x xs) ≡ true
    → (b ≡ false) × (is_empty xs ≡ true)
unfolding kept
skipped true x xs h = cc
skipped false x xs h = (refl, h)

none_found :
    (unit : ℕ) (rule : SeasonRule) (rows : List SeasonRow)
    → is_empty (overlapping unit rule rows) ≡ true
    → All (λ s. overlaps rule s ≡ false) (seasons_of unit rows)
unfolding overlapping seasons_of kept
none_found unit rule [] h = tt
none_found unit rule (r ∷ rs) h =
    let (passed, rest) =
      skipped (r.unit_id == unit && overlaps rule r.rule) r (overlapping unit rule rs) h in
    elim (Bool-cases (r.unit_id == unit)) [
      | inl mine ↦ rw (filter_by, mine) (ground arith, none_found unit rule rs rest)
      | inr other ↦ rw (filter_by, other) (none_found unit rule rs rest)
    ]

seasons_of-snoc :
    (unit : ℕ) (rows : List SeasonRow) (row : SeasonRow)
    → seasons_of unit (rows ++ (row ∷ [])) ≡ (
        if row.unit_id == unit
        then seasons_of unit rows ++ (row.rule ∷ [])
        else seasons_of unit rows)
unfolding seasons_of
seasons_of-snoc unit [] row = elim (Bool-cases (row.unit_id == unit)) [
  | inl mine ↦ rw (filter_by, mine) refl
  | inr other ↦ rw (filter_by, other) refl
]
seasons_of-snoc unit (r ∷ rs) row = elim (Bool-cases (r.unit_id == unit)) [
  | inl mine ↦
      rw (filter_by, mine)
        (ap (λ l. r.rule ∷ l) (seasons_of-snoc unit rs row) ∙ push (row.unit_id == unit))
  | inr other ↦ rw (filter_by, other) (seasons_of-snoc unit rs row)
]
  where
    push :
        (b : Bool)
        → r.rule ∷ (if b then seasons_of unit rs ++ (row.rule ∷ []) else seasons_of unit rs) ≡ (
            if b
            then r.rule ∷ (seasons_of unit rs ++ (row.rule ∷ []))
            else r.rule ∷ seasons_of unit rs)
    push true = refl
    push false = refl

-- the list of seasons with one more
grown :
    (b : Bool) (xs : List SeasonRule) (x : SeasonRule)
    → AreDisjoint xs
    → (b ≡ true → All (λ s. overlaps x s ≡ false) xs)
    → AreDisjoint (if b then xs ++ (x ∷ []) else xs)
grown true xs x h k = append-AreDisjoint xs x h (k refl)
grown false xs x h k = h

-- of the unit that the season is for
for_unit :
    (u unit : ℕ) (rule : SeasonRule) (rows : List SeasonRow)
    → unit == u ≡ true
    → All (λ s. overlaps rule s ≡ false) (seasons_of unit rows)
    → All (λ s. overlaps rule s ≡ false) (seasons_of u rows)
for_unit u unit rule rows e h =
    let same : unit ≡ u = ground arith in
    subst (λ x. All (λ s. overlaps rule s ≡ false) (seasons_of x rows)) same h

yes : (b : Bool) → not b ≡ false → b ≡ true
yes true h = refl
yes false h = cc

-- A season that shares a day with another of its unit is not created.
pub create_season-AreDisjoint :
    (u unit : ℕ) (rule : SeasonRule) (s : Session SeasonTables)
    → AreDisjoint (seasons_of u s.store.season_rules)
    → AreDisjoint (seasons_of u (create_season unit rule s).1.store.season_rules)
unfolding create_season insert_season
create_season-AreDisjoint u unit rule =
    (>>-Keeps (throw_when-Keeps _ bad_range) (
      select->>=-Keeps (λ (t : SeasonTables). overlapping unit rule t.season_rules) _
        (λ t h. throw_when->>-EndsIn _ overlap _ t h (λ g.
          update-EndsIn (insert_season unit rule) t h (
            subst AreDisjoint
              (sym (
                seasons_of-snoc u t.season_rules
                  (record { id = t.next_id; unit_id = unit; rule = rule })))
              (grown (unit == u) (seasons_of u t.season_rules) rule h (λ e.
                for_unit u unit rule t.season_rules e
                  (none_found unit rule t.season_rules (yes _ g))))))))).keep
