-- ===== src/Accounting/Books/Statement.antt =====
-- The entry of src/accounting/accounting-owner-statement-posting.service.ts, `postGeneratedStatement`:
-- a rent on one side, and on the other the parts of it that are not nothing.
use gestion_alquileres_backe.Accounting.Books.Accepted.{credit_step, debit_step, balanced_end}
use gestion_alquileres_backe.Accounting.Books.Postings.{is_uneven}
use gestion_alquileres_backe.Accounting.Books.Entries.{statement_entry, line_if, credit_line}
use gestion_alquileres_backe.Accounting.Validation.{validate_entry, is_blank_code, validate_lines}
use gestion_alquileres_backe.Money.Currency.{Code, is_blank, codes}
use gestion_alquileres_backe.Accounting.Tables.{JournalLineInput, References}
use gestion_alquileres_backe.Money.Decimal.{DecimalLib}
use gestion_alquileres_backe.Prelude.Int.{
  ◌-ℤ◌, ℤ, pos, ◌<ℤ◌, is_zero, ◌+ℤ◌, ◌≤ℤ◌, ltb_ℤ, ltb_ℤ→lt, int_laws, not_less, pos_part, neg_part,
}
use gestion_alquileres_backe.Prelude.{
  Bool, not, ◌≡◌, ◌||◌, true, false, List, ltb, arith, Bool-cases, length, inl, ◌∷◌, inr, ok,
  if◌then◌else◌, [], ◌∙◌, refl, ap,
}
use gestion_alquileres_backe.Accounting.Books.{BookedStatement}

-- what a statement holds is positive, or nothing
abbrev pub HasParts : BookedStatement → Type 0
HasParts s =
    (pos 0 <ℤ s.gross_rent)
    × (pos 0 ≤ℤ s.management_commission)
    × (pos 0 ≤ℤ s.net_amount)
    × (pos 0 ≤ℤ s.maintenance_deduction)

-- some part makes a second line
second_line :
    (a b c : Bool) (w x y z : JournalLineInput)
    → a || (b || c) ≡ true
    → ltb
        (length (
          w
          ∷ (if a
              then x ∷ (if b then y ∷ (if c then z ∷ [] else []) else if c then z ∷ [] else [])
              else if b
              then y ∷ (if c then z ∷ [] else [])
              else if c
              then z ∷ []
              else [])))
        2
      ≡ false
second_line true true true w x y z h = refl
second_line true true false w x y z h = refl
second_line true false true w x y z h = refl
second_line true false false w x y z h = refl
second_line false true true w x y z h = refl
second_line false true false w x y z h = refl
second_line false false true w x y z h = refl
second_line false false false w x y z h = cc

no_difference : (x y : ℤ) → not (is_zero (x -ℤ y)) ≡ false → x ≡ y
unfolding ◌-ℤ◌
no_difference x y h = ground arith

all_false : (a b c : Bool) → a || (b || c) ≡ false → (a ≡ false) × (b ≡ false) × (c ≡ false)
all_false a b c h = ground arith

some_part :
    (gross a b c : ℤ)
    → gross ≡ a +ℤ b +ℤ c
    → pos 0 <ℤ gross
    → ltb_ℤ (pos 0) a || (ltb_ℤ (pos 0) b || ltb_ℤ (pos 0) c) ≡ true
some_part gross a b c e h =
    elim (Bool-cases (ltb_ℤ (pos 0) a || (ltb_ℤ (pos 0) b || ltb_ℤ (pos 0) c))) [
      | inl yes_one ↦ yes_one
      | inr none ↦
          let (p, q, r) = all_false (ltb_ℤ (pos 0) a) (ltb_ℤ (pos 0) b) (ltb_ℤ (pos 0) c) none in
          absurd (
            omega (
              int_laws,
              not_less (pos 0) a p,
              not_less (pos 0) b q,
              not_less (pos 0) c r,
              ap pos_part e,
              ap neg_part e,
              h,
            ))
    ]

module _ ⦃dec : DecimalLib⦄ where
  -- A part that is nothing makes no line, and adds nothing.
  part_step :
      (code : Code) (amount : ℤ) (about : References) (memo : Code) (rest : List JournalLineInput)
      (debits credits : ℤ)
      → is_blank_code code ≡ false
      → pos 0 ≤ℤ amount
      → validate_lines (line_if amount (credit_line code amount about memo) rest) debits credits
        ≡ validate_lines rest (debits +ℤ pos 0) (credits +ℤ amount)
  part_step code amount about memo rest debits credits named h =
      elim (Bool-cases (ltb_ℤ (pos 0) amount)) [
        | inl positive ↦ rw positive (
            credit_step code amount about memo rest debits credits named
              (ltb_ℤ→lt (pos 0) amount positive))
        | inr nothing ↦
            let d : debits ≡ debits +ℤ pos 0 = omega int_laws in
            let c : credits ≡ credits +ℤ amount =
              omega (int_laws, not_less (pos 0) amount nothing) in
            rw nothing (
              ap (λ x. validate_lines rest x credits) d
              ∙ ap (λ x. validate_lines rest (debits +ℤ pos 0) x) c)
      ]

  -- The statement of an owner whose rent is positive, whose parts are not negative and whose rent is
  -- their sum is posted by an entry that passes `validateEntry`, however many of its parts are nothing.
  pub statement_accepted :
      (s : BookedStatement)
      → HasParts s
      → is_uneven s ≡ false
      → validate_entry (statement_entry s) ≡ ok tt
  unfolding validate_entry statement_entry is_blank_code is_blank
  statement_accepted s (gross, commission, net, deduction) even =
      let sum = no_difference s.gross_rent _ even in
      rw
        (second_line (ltb_ℤ (pos 0) s.management_commission) (ltb_ℤ (pos 0) s.net_amount)
          (ltb_ℤ (pos 0) s.maintenance_deduction) _ _ _ _
          (some_part s.gross_rent s.management_commission s.net_amount s.maintenance_deduction sum
            gross))
        (debit_step (codes "4000") s.gross_rent _ _ _ (pos 0) (pos 0) refl gross
          ∙ part_step (codes "4200") s.management_commission _ _ _ _ _ refl commission
          ∙ part_step (codes "2100") s.net_amount _ _ _ _ _ refl net
          ∙ part_step (codes "5200") s.maintenance_deduction _ _ [] _ _ refl deduction
          ∙ balanced_end _ _ (omega (int_laws, ap pos_part sum, ap neg_part sum)))
