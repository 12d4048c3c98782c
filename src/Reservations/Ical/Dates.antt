-- ===== src/Reservations/Ical/Dates.antt =====
-- The dates that ical-builder.ts of src/reservations/ical gets, and `toIsoDate` of ical-parser.ts on them.
use mathlib.Core.Bool.{true≢false}
use mathlib.Core.List.{append-nil}
use gestion_alquileres_backe.Reservations.Ical.Parser.{is_digit, iso_date, to_iso_date}
use gestion_alquileres_backe.Prelude.{
  Bool, take, ◌≡◌, any, ℕ, ◌++◌, true, ◌==◌, false, arith, ◌∷◌, ◌&&◌, drop, [], if◌then◌else◌, refl,
  ◌∙◌, ap, some, sym,
}
use gestion_alquileres_backe.Money.Currency.{
  Code, is_blank, drop_last_blanks, codes, trimmed, drop_blanks,
}

-- eight digits
unfoldable pub basic_digits : Code → Bool
basic_digits (a ∷ b ∷ c ∷ d ∷ e ∷ f ∷ g ∷ h ∷ []) =
    is_digit a
    && is_digit b
    && is_digit c
    && is_digit d
    && is_digit e
    && is_digit f
    && is_digit g
    && is_digit h
basic_digits _ = false

-- YYYY-MM-DD of YYYYMMDD
unfoldable pub dashed : Code → Code
dashed s = take 4 s ++ codes "-" ++ take 2 (drop 4 s) ++ codes "-" ++ drop 6 s

-- YYYYMMDD
abbrev pub IsBasicDate : Code → Type 0
IsBasicDate s = (basic_digits s ≡ true)

no_blank : (c : ℕ) → is_digit c ≡ true → is_blank c ≡ false
unfolding is_blank
no_blank c h = ground arith

-- no blank goes that something stands behind, or that is none
last-cons :
    (c : ℕ) (cs : Code) → is_blank c ≡ false → drop_last_blanks (c ∷ cs) ≡ c ∷ drop_last_blanks cs
unfolding drop_last_blanks
last-cons c cs h = go (drop_last_blanks cs)
  where
    go :
        (rest : Code)
        → elim rest as (λ _. Code) [ [] ↦ if is_blank c then [] else c ∷ [] | d ∷ ds ↦ c ∷ d ∷ ds ]
          ≡ c ∷ rest
    go [] = rw h refl
    go (d ∷ ds) = refl

blank_first :
    (c : ℕ) (cs : Code)
    → any is_blank (c ∷ cs) ≡ false
    → (is_blank c ≡ false) × (any is_blank cs ≡ false)
blank_first c cs h = ground arith

last-prefix :
    (p rest : Code)
    → any is_blank p ≡ false
    → drop_last_blanks (p ++ rest) ≡ p ++ drop_last_blanks rest
last-prefix [] rest h = refl
last-prefix (c ∷ p) rest h =
    let (x, y) = blank_first c p h in
    last-cons c (p ++ rest) x ∙ ap (λ z. c ∷ z) (last-prefix p rest y)

first-prefix : (c : ℕ) (p : Code) → is_blank c ≡ false → drop_blanks (c ∷ p) ≡ c ∷ p
unfolding drop_blanks
first-prefix c p h = rw h refl

-- `trim` keeps what begins with no blank
pub trimmed-prefix :
    (c : ℕ) (p rest : Code)
    → any is_blank (c ∷ p) ≡ false
    → trimmed (c ∷ (p ++ rest)) ≡ c ∷ (p ++ drop_last_blanks rest)
unfolding trimmed
trimmed-prefix c p rest h =
    ap drop_last_blanks (first-prefix c (p ++ rest) (blank_first c p h).0)
    ∙ last-prefix (c ∷ p) rest h

pub trimmed-line : (c : ℕ) (p : Code) → any is_blank (c ∷ p) ≡ false → trimmed (c ∷ p) ≡ c ∷ p
unfolding drop_last_blanks
trimmed-line c p h =
    ap (λ x. trimmed (c ∷ x)) (sym (append-nil p))
    ∙ trimmed-prefix c p [] h
    ∙ ap (λ x. c ∷ x) (append-nil p)

pub data BasicDate : Code → Type 0 where
  basic :
      (a b c d e f g h : ℕ)
      → is_digit a ≡ true
      → is_digit b ≡ true
      → is_digit c ≡ true
      → is_digit d ≡ true
      → is_digit e ≡ true
      → is_digit f ≡ true
      → is_digit g ≡ true
      → is_digit h ≡ true
      → BasicDate (a ∷ b ∷ c ∷ d ∷ e ∷ f ∷ g ∷ h ∷ [])

both : (a b : Bool) → a && b ≡ true → (a ≡ true) × (b ≡ true)
both a b h = ground arith

pub basic_cases : (s : Code) → IsBasicDate s → BasicDate s
unfolding basic_digits
basic_cases [] x = absurd (true≢false (sym x))
basic_cases (a ∷ []) x = absurd (true≢false (sym x))
basic_cases (a ∷ b ∷ []) x = absurd (true≢false (sym x))
basic_cases (a ∷ b ∷ c ∷ []) x = absurd (true≢false (sym x))
basic_cases (a ∷ b ∷ c ∷ d ∷ []) x = absurd (true≢false (sym x))
basic_cases (a ∷ b ∷ c ∷ d ∷ e ∷ []) x = absurd (true≢false (sym x))
basic_cases (a ∷ b ∷ c ∷ d ∷ e ∷ f ∷ []) x = absurd (true≢false (sym x))
basic_cases (a ∷ b ∷ c ∷ d ∷ e ∷ f ∷ g ∷ []) x = absurd (true≢false (sym x))
basic_cases (a ∷ b ∷ c ∷ d ∷ e ∷ f ∷ g ∷ h ∷ []) x =
    let (x7, xh) =
      both
        (is_digit a
          && is_digit b
          && is_digit c
          && is_digit d
          && is_digit e
          && is_digit f
          && is_digit g)
        (is_digit h) x in
    let (x6, xg) =
      both (is_digit a && is_digit b && is_digit c && is_digit d && is_digit e && is_digit f)
        (is_digit g) x7 in
    let (x5, xf) =
      both (is_digit a && is_digit b && is_digit c && is_digit d && is_digit e) (is_digit f) x6 in
    let (x4, xe) = both (is_digit a && is_digit b && is_digit c && is_digit d) (is_digit e) x5 in
    let (x3, xd) = both (is_digit a && is_digit b && is_digit c) (is_digit d) x4 in
    let (x2, xc) = both (is_digit a && is_digit b) (is_digit c) x3 in
    let (xa, xb) = both (is_digit a) (is_digit b) x2 in
    basic a b c d e f g h xa xb xc xd xe xf xg xh
basic_cases (a ∷ b ∷ c ∷ d ∷ e ∷ f ∷ g ∷ h ∷ i ∷ rest) x = absurd (true≢false (sym x))

-- no blank in a date
date_blank : (s : Code) → BasicDate s → any is_blank s ≡ false
date_blank _ (basic a b c d e f g h xa xb xc xd xe xf xg xh) =
    rw
      (
        no_blank a xa,
        no_blank b xb,
        no_blank c xc,
        no_blank d xd,
        no_blank e xe,
        no_blank f xf,
        no_blank g xg,
        no_blank h xh,
      )
      refl

date_iso : (s : Code) → BasicDate s → iso_date s ≡ some (dashed s)
unfolding iso_date dashed
date_iso _ (basic a b c d e f g h xa xb xc xd xe xf xg xh) =
    rw (xa, xb, xc, xd, xe, xf, xg, xh) refl

-- blanks at the end of a date: there are none
pub date_last : (s : Code) → BasicDate s → drop_last_blanks s ≡ s
unfolding drop_last_blanks
date_last s d =
    ap drop_last_blanks (sym (append-nil s)) ∙ last-prefix s [] (date_blank s d) ∙ append-nil s

date_trimmed : (s : Code) → BasicDate s → trimmed s ≡ s
unfolding trimmed
date_trimmed _ (basic a b c d e f g h xa xb xc xd xe xf xg xh) =
    ap drop_last_blanks (first-prefix a (b ∷ c ∷ d ∷ e ∷ f ∷ g ∷ h ∷ []) (no_blank a xa))
    ∙ date_last (a ∷ b ∷ c ∷ d ∷ e ∷ f ∷ g ∷ h ∷ []) (basic a b c d e f g h xa xb xc xd xe xf xg xh)

-- A date on a line is read with its dashes.
pub to_iso_date-basic : (s : Code) → IsBasicDate s → to_iso_date s ≡ some (dashed s)
unfolding to_iso_date
to_iso_date-basic s h = let d = basic_cases s h in ap iso_date (date_trimmed s d) ∙ date_iso s d

-- no line feed in a date
pub date_line : (s : Code) → BasicDate s → any (λ x. x == b'\n') s ≡ false
date_line _ (basic a b c d e f g h xa xb xc xd xe xf xg xh) =
    rw
      (
        no_feed a xa,
        no_feed b xb,
        no_feed c xc,
        no_feed d xd,
        no_feed e xe,
        no_feed f xf,
        no_feed g xg,
        no_feed h xh,
      )
      refl
  where
    no_feed : (c : ℕ) → is_digit c ≡ true → c == b'\n' ≡ false
    no_feed c h = ground arith

-- a line that ends in a date
pub trimmed-date :
    (c : ℕ) (p s : Code)
    → any is_blank (c ∷ p) ≡ false
    → IsBasicDate s
    → trimmed (c ∷ (p ++ s)) ≡ c ∷ (p ++ s)
trimmed-date c p s h d =
    trimmed-prefix c p s h ∙ ap (λ x. c ∷ (p ++ x)) (date_last s (basic_cases s d))
