-- ===== src/Reservations/Ical/Lines.antt =====
-- The lines that ical-builder.ts of src/reservations/ical joins are those that ical-parser.ts splits off.
use gestion_alquileres_backe.Reservations.Ical.Builder.{crlf}
use gestion_alquileres_backe.Reservations.Ical.Parser.{unfold_lines}
use mathlib.Core.List.{append-nil, append_assoc}
use gestion_alquileres_backe.Prelude.{
  ℕ, any, List, ◌==◌, ◌∷◌, ◌++◌, ◌≡◌, [], false, ap, sym, ◌∙◌, arith, refl, Bool, All, ◌&&◌,
}
use gestion_alquileres_backe.Reservations.Ical.Text.{
  join, to_line_feeds, drop_folds, split_lines, starts_with, starts_fold,
}
use gestion_alquileres_backe.Money.Currency.{Code}

-- a line with no line feed, and no blank at its start
pub record IsLine (line : Code) : Type 0 where
  pub no_feed : any (λ x. x == b'\n') line ≡ false
  pub no_fold : starts_fold line ≡ false

-- each line with its end
unfoldable pub ended : Code → List Code → Code
ended end [] = []
ended end (line ∷ rest) = line ++ (end ++ ended end rest)

-- Lines that are joined, with an end, are lines that end.
pub join-ended :
    (end line : Code) (rest : List Code) → join end (line ∷ rest) ++ end ≡ ended end (line ∷ rest)
unfolding join ended
join-ended end line [] = ap (λ x. line ++ x) (sym (append-nil end))
join-ended end line (next ∷ rest) =
    append_assoc line (end ++ join end (next ∷ rest)) end
    ∙ ap (λ x. line ++ x)
        (append_assoc end (join end (next ∷ rest)) end
          ∙ ap (λ x. end ++ x) (join-ended end next rest))

pub ended-append :
    (end : Code) (xs ys : List Code) → ended end (xs ++ ys) ≡ ended end xs ++ ended end ys
unfolding ended
ended-append end [] ys = refl
ended-append end (x ∷ xs) ys =
    ap (λ z. x ++ (end ++ z)) (ended-append end xs ys)
    ∙ sym (
        append_assoc x (end ++ ended end xs) (ended end ys)
        ∙ ap (λ z. x ++ z) (append_assoc end (ended end xs) (ended end ys)))

no_feed_first :
    (x : ℕ) (xs : Code)
    → any (λ y. y == b'\n') (x ∷ xs) ≡ false
    → (x == b'\n' ≡ false) × (any (λ y. y == b'\n') xs ≡ false)
no_feed_first x xs h = ground arith

and_false : (a b : Bool) → b ≡ false → a && b ≡ false
and_false a b h = ground arith

-- a character stays, where no line feed follows
feeds-cons :
    (x : ℕ) (xs : Code)
    → starts_with (b'\n' ∷ []) xs ≡ false
    → to_line_feeds (x ∷ xs) ≡ x ∷ to_line_feeds xs
unfolding to_line_feeds
feeds-cons x xs h = rw (and_false (x == b'\r') _ h) refl

no_feed_next : (y : ℕ) (ys : Code) → y == b'\n' ≡ false → starts_with (b'\n' ∷ []) (y ∷ ys) ≡ false
unfolding starts_with
no_feed_next y ys h = ground arith

-- carriage returns before line feeds go, the others stay
feeds-line :
    (line rest : Code)
    → any (λ x. x == b'\n') line ≡ false
    → to_line_feeds (line ++ (b'\r' ∷ b'\n' ∷ rest)) ≡ line ++ (b'\n' ∷ to_line_feeds rest)
unfolding to_line_feeds starts_with
feeds-line [] rest h = refl
feeds-line (x ∷ []) rest h = feeds-cons x (b'\r' ∷ b'\n' ∷ rest) refl
feeds-line (x ∷ y ∷ line) rest h =
    let (p, q) = no_feed_first x (y ∷ line) h in
    feeds-cons x (y ∷ (line ++ (b'\r' ∷ b'\n' ∷ rest)))
      (no_feed_next y (line ++ (b'\r' ∷ b'\n' ∷ rest)) (no_feed_first y line q).0)
    ∙ ap (λ z. x ∷ z) (feeds-line (y ∷ line) rest q)

folds-line :
    (line rest : Code)
    → any (λ x. x == b'\n') line ≡ false
    → starts_fold rest ≡ false
    → drop_folds (line ++ (b'\n' ∷ rest)) ≡ line ++ (b'\n' ∷ drop_folds rest)
unfolding drop_folds
folds-line [] rest h f = rw f refl
folds-line (x ∷ line) rest h f =
    let (p, q) = no_feed_first x line h in rw p (ap (λ z. x ∷ z) (folds-line line rest q f))

split-line :
    (line rest : Code)
    → any (λ x. x == b'\n') line ≡ false
    → split_lines (line ++ (b'\n' ∷ rest)) ≡ line ∷ split_lines rest
unfolding split_lines
split-line [] rest h = refl
split-line (x ∷ line) rest h =
    let (p, q) = no_feed_first x line h in rw (p, split-line line rest q) refl

abbrev feed : Code
feed = b'\n' ∷ []

feeds-ended : (ls : List Code) → All IsLine ls → to_line_feeds (ended crlf ls) ≡ ended feed ls
unfolding ended to_line_feeds
feeds-ended [] h = refl
feeds-ended (line ∷ ls) (l, h) =
    feeds-line line (ended crlf ls) l.no_feed ∙ ap (λ z. line ++ (b'\n' ∷ z)) (feeds-ended ls h)

ended_starts : (ls : List Code) → All IsLine ls → starts_fold (ended feed ls) ≡ false
unfolding ended starts_fold
ended_starts [] h = refl
ended_starts ([] ∷ ls) h = refl
ended_starts ((x ∷ line) ∷ ls) (l, h) = l.no_fold

folds-ended : (ls : List Code) → All IsLine ls → drop_folds (ended feed ls) ≡ ended feed ls
unfolding ended drop_folds
folds-ended [] h = refl
folds-ended (line ∷ ls) (l, h) =
    folds-line line (ended feed ls) l.no_feed (ended_starts ls h)
    ∙ ap (λ z. line ++ (b'\n' ∷ z)) (folds-ended ls h)

split-ended : (ls : List Code) → All IsLine ls → split_lines (ended feed ls) ≡ ls ++ ([] ∷ [])
unfolding ended split_lines
split-ended [] h = refl
split-ended (line ∷ ls) (l, h) =
    split-line line (ended feed ls) l.no_feed ∙ ap (λ z. line ∷ z) (split-ended ls h)

-- Lines that end in carriage return and line feed are read back, with an empty one behind them.
pub unfold_lines-ended :
    (ls : List Code) → All IsLine ls → unfold_lines (ended crlf ls) ≡ ls ++ ([] ∷ [])
unfolding unfold_lines
unfold_lines-ended ls h =
    ap (λ x. split_lines (drop_folds x)) (feeds-ended ls h)
    ∙ ap split_lines (folds-ended ls h)
    ∙ split-ended ls h
