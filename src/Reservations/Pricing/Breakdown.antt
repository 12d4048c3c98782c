-- ===== src/Reservations/Pricing/Breakdown.antt =====
-- Sums over the lines of a price: in cents, and with one line more.
use gestion_alquileres_backe.Prelude.{
  ◌≡◌, refl, ap, ◌∙◌, inl, inr, Bool, not, ◌&&◌, List, [], ◌∷◌, ◌++◌, map, arith, All, filter_by,
  if◌then◌else◌, Bool-cases, Option, some, none,
}
use gestion_alquileres_backe.Prelude.Int.{
  ℤ, pos, ◌+ℤ◌, sum_ℤ, int_laws, +ℤ_assoc, pos_part, neg_part,
}
use gestion_alquileres_backe.Money.Numeral.{Decimal, cents, plus, plus-cents}
use gestion_alquileres_backe.Reservations.Pricing.{
  PriceLine, sum_from, sum_lines, is_discount, is_adjustment, push, amount_of,
}

-- an amount in cents
abbrev pub InCents : Decimal → Type 0
InCents d = d.places ≡ 2

pub cents_of : (d : Decimal) → InCents d → d ≡ cents d.units
cents_of d e = λ i. record { units = d.units; places = e i }

pub plus-InCents : (a b : Decimal) → InCents a → InCents b → plus a b ≡ cents (a.units +ℤ b.units)
plus-InCents a b e f = rw (cents_of a e, cents_of b f) (plus-cents a.units b.units)

abbrev pub units_of : List PriceLine → List ℤ
units_of lines = map (λ line. line.amount.units) lines

abbrev pub AllInCents : List PriceLine → Type 0
AllInCents = All (λ line. InCents line.amount)

sum_from-cents :
    (acc : ℤ) (lines : List PriceLine)
    → AllInCents lines
    → sum_from (cents acc) (map (λ line. line.amount) lines) ≡ cents (acc +ℤ sum_ℤ (units_of lines))
unfolding sum_from sum_ℤ
sum_from-cents acc [] h = ap cents (omega int_laws)
sum_from-cents acc (l ∷ ls) h =
    ap (λ d. sum_from d (map (λ line. line.amount) ls)) (plus-InCents (cents acc) l.amount refl h.0)
    ∙ sum_from-cents (acc +ℤ l.amount.units) ls h.1
    ∙ ap cents (+ℤ_assoc acc l.amount.units (sum_ℤ (units_of ls)))

filter_by-AllInCents :
    (test : PriceLine → Bool) (lines : List PriceLine)
    → AllInCents lines
    → AllInCents (filter_by test lines)
filter_by-AllInCents test [] h = tt
filter_by-AllInCents test (l ∷ ls) h = ground (arith, filter_by-AllInCents test ls h.1)

pub sum_lines-cents :
    (test : PriceLine → Bool) (lines : List PriceLine)
    → AllInCents lines
    → sum_lines test lines ≡ cents (sum_ℤ (units_of (filter_by test lines)))
unfolding sum_lines
sum_lines-cents test lines h =
    sum_from-cents (pos 0) (filter_by test lines) (filter_by-AllInCents test lines h)
    ∙ ap cents (omega int_laws)

-- what a line adds to the net amount of the accommodation beside the nights
abbrev pub counted : PriceLine → ℤ
counted line =
    if is_discount line
    then line.amount.units
    else if is_adjustment line.concept
    then line.amount.units
    else pos 0

abbrev pub sum_counted : List PriceLine → ℤ
sum_counted lines = sum_ℤ (map counted lines)

abbrev pub is_charged_adjustment : PriceLine → Bool
is_charged_adjustment line = not (is_discount line) && is_adjustment line.concept

pub split_counted :
    (lines : List PriceLine)
    → sum_ℤ (units_of (filter_by is_charged_adjustment lines))
        +ℤ sum_ℤ (units_of (filter_by is_discount lines))
      ≡ sum_counted lines
unfolding sum_ℤ
split_counted [] = omega int_laws
split_counted (l ∷ ls) =
    let e = split_counted ls in
    elim (Bool-cases (is_discount l)) [
      | inl d ↦ rw (filter_by, d) (omega (int_laws, ap pos_part e, ap neg_part e))
      | inr c ↦ elim (Bool-cases (is_adjustment l.concept)) [
        | inl a ↦ rw (filter_by, c, a) (omega (int_laws, ap pos_part e, ap neg_part e))
        | inr n ↦ rw (filter_by, c, n) (omega (int_laws, ap pos_part e, ap neg_part e))
      ]
    ]

sum-snoc :
    (f : PriceLine → ℤ) (l : PriceLine) (ls : List PriceLine)
    → sum_ℤ (map f (ls ++ (l ∷ []))) ≡ sum_ℤ (map f ls) +ℤ f l
unfolding sum_ℤ
sum-snoc f l [] = omega int_laws
sum-snoc f l (x ∷ xs) = rw (sum-snoc f l xs) (omega int_laws)

All-snoc :
    (l : PriceLine) (ls : List PriceLine)
    → AllInCents ls
    → InCents l.amount
    → AllInCents (ls ++ (l ∷ []))
All-snoc l [] h k = (k, tt)
All-snoc l (x ∷ xs) h k = (h.0, All-snoc l xs h.1 k)

-- what an optional line counts for
abbrev pub count_of : Option PriceLine → ℤ
count_of none = pos 0
count_of (some line) = counted line

pub units-push :
    (line : Option PriceLine) (ls : List PriceLine)
    → sum_ℤ (units_of (push line ls)) ≡ sum_ℤ (units_of ls) +ℤ (amount_of line).units
units-push none ls = omega int_laws
units-push (some l) ls = sum-snoc (λ line. line.amount.units) l ls

pub counted-push :
    (line : Option PriceLine) (ls : List PriceLine)
    → sum_counted (push line ls) ≡ sum_counted ls +ℤ count_of line
counted-push none ls = omega int_laws
counted-push (some l) ls = sum-snoc counted l ls

pub All-push :
    (line : Option PriceLine) (ls : List PriceLine)
    → AllInCents ls
    → InCents (amount_of line)
    → AllInCents (push line ls)
All-push none ls h k = h
All-push (some l) ls h k = All-snoc l ls h k
