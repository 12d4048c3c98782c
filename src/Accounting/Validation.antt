-- ===== src/Accounting/Validation.antt =====
-- src/accounting/accounting-ledger.service.ts, `validateEntry` and `toCents`: what an entry must be
-- before anything is written, and what that says of the sums of its lines.
use gestion_alquileres_backe.Payments.Refunds.Bound.{to_cents-round2}
use mathlib.Core.Option.{none}
use gestion_alquileres_backe.Prelude.Int.{
  ℤ, pos, ltb_ℤ, ◌+ℤ◌, is_zero, sum_ℤ, ◌-ℤ◌, int_laws, pos_part, neg_part,
}
use gestion_alquileres_backe.Accounting.Tables.{
  PostJournalEntryInput, JournalLineInput, LedgerError, negative_amount, few_lines, not_balanced,
  no_account_code, not_one_sided,
}
use gestion_alquileres_backe.Money.Numeral.{Decimal, whole, round2, to_places, times}
use gestion_alquileres_backe.Money.Decimal.{DecimalLib}
use gestion_alquileres_backe.Money.Currency.{Code, is_blank}
use gestion_alquileres_backe.Payments.Refunds.{to_cents}
use gestion_alquileres_backe.Prelude.{
  ◌>>=◌, ◌>>◌, Option, Bool, List, true, Result, ◌∷◌, ◌≡◌, some, throw_if, ok, none, ◌&&◌, not, ltb,
  [], err, length, map, ◌||◌, false, ap, arith, throw_if-ok, refl, ◌∙◌,
}

-- `amount ?? 0`
unfoldable pub or_zero : Option Decimal → Decimal
or_zero none = whole (pos 0)
or_zero (some amount) = amount

-- `!code?.trim()`
unfoldable pub is_blank_code : Code → Bool
is_blank_code [] = true
is_blank_code (c ∷ cs) = is_blank c && is_blank_code cs

module _ ⦃dec : DecimalLib⦄ where
  -- `toCents`, on whether the amount is negative
  abbrev passed : Bool → ℤ → Result LedgerError ℤ
  passed true x = err negative_amount
  passed false x = ok x

  -- `toCents`
  unfoldable pub to_entry_cents : Decimal → Result LedgerError ℤ
  to_entry_cents amount =
      passed (ltb_ℤ amount.units (pos 0)) (to_places (times amount (whole (pos 100))) 0).units

  -- the loop of `validateEntry`, from the sums so far
  unfoldable pub validate_lines : List JournalLineInput → ℤ → ℤ → Result LedgerError (Unit {0})
  validate_lines [] debits credits = throw_if (not (is_zero (debits -ℤ credits))) not_balanced
  validate_lines (line ∷ lines) debits credits =
      throw_if (is_blank_code line.account_code) no_account_code
      >> (to_entry_cents (or_zero line.debit) >>= λ debit.
          to_entry_cents (or_zero line.credit) >>= λ credit.
          throw_if
            ((ltb_ℤ (pos 0) debit && ltb_ℤ (pos 0) credit) || (is_zero debit && is_zero credit))
            not_one_sided
          >> validate_lines lines (debits +ℤ debit) (credits +ℤ credit))

  -- `validateEntry`
  unfoldable pub validate_entry : PostJournalEntryInput → Result LedgerError (Unit {0})
  validate_entry input =
      throw_if (ltb (length input.lines) 2) few_lines >> validate_lines input.lines (pos 0) (pos 0)

  -- what the columns of a line come to, in cents
  abbrev pub debit_cents : JournalLineInput → ℤ
  debit_cents line = (round2 (or_zero line.debit)).units

  abbrev pub credit_cents : JournalLineInput → ℤ
  credit_cents line = (round2 (or_zero line.credit)).units

  -- What is checked is what the columns will hold.
  to_cents_ok :
      (amount : Decimal) (x : ℤ) → to_entry_cents amount ≡ ok x → x ≡ (round2 amount).units
  unfolding to_entry_cents to_cents
  to_cents_ok amount x h = go _ (ltb_ℤ amount.units (pos 0)) h ∙ to_cents-round2 amount
    where
      go : (y : ℤ) (b : Bool) → passed b y ≡ ok x → x ≡ y
      go y true e = cc
      go y false e = cc

  zero_difference : (x y : ℤ) → not (is_zero (x -ℤ y)) ≡ false → x ≡ y
  unfolding ◌-ℤ◌
  zero_difference x y h = ground arith

  regroup :
      (x y u v : ℤ) {d d' c c' : ℤ}
      → d ≡ d'
      → c ≡ c'
      → x +ℤ d +ℤ u ≡ y +ℤ c +ℤ v
      → x +ℤ (d' +ℤ u) ≡ y +ℤ (c' +ℤ v)
  regroup x y u v p q r = omega (
    int_laws,
    ap pos_part p,
    ap neg_part p,
    ap pos_part q,
    ap neg_part q,
    ap pos_part r,
    ap neg_part r,
  )

  -- A line that passes has two amounts, and what follows passes too.
  line_passed {ℓ} :
      {Goal : Type ℓ} (blank : Bool) (debit credit : Result LedgerError ℤ) (bad : ℤ → ℤ → Bool)
      (rest : ℤ → ℤ → Result LedgerError (Unit {0}))
      → throw_if blank no_account_code
          >> (debit >>= λ d. credit >>= λ c. throw_if (bad d c) not_one_sided >> rest d c)
        ≡ ok tt
      → ((d c : ℤ) → debit ≡ ok d → credit ≡ ok c → bad d c ≡ false → rest d c ≡ ok tt → Goal)
      → Goal
  line_passed true debit credit bad rest h k = cc
  line_passed false (err e) credit bad rest h k = cc
  line_passed false (ok d) (err e) bad rest h k = cc
  line_passed false (ok d) (ok c) bad rest h k =
      let g = guard (bad d c) h in k d c refl refl g.0 g.1
    where
      guard :
          (b : Bool) {next : Result LedgerError (Unit {0})}
          → throw_if b not_one_sided >> next ≡ ok tt
          → (b ≡ false) × (next ≡ ok tt)
      guard true e = cc
      guard false e = (refl, e)

  pub validate_lines-adds_up :
      (lines : List JournalLineInput) (debits credits : ℤ)
      → validate_lines lines debits credits ≡ ok tt
      → debits +ℤ sum_ℤ (map debit_cents lines) ≡ credits +ℤ sum_ℤ (map credit_cents lines)
  unfolding validate_lines sum_ℤ
  validate_lines-adds_up [] debits credits h =
      ap (λ x. x +ℤ pos 0)
        (zero_difference debits credits (throw_if-ok (not (is_zero (debits -ℤ credits))) _ h))
  validate_lines-adds_up (line ∷ lines) debits credits h =
      line_passed (is_blank_code line.account_code) (to_entry_cents (or_zero line.debit))
        (to_entry_cents (or_zero line.credit)) _ _ h
        (λ debit credit d c one rest.
          regroup debits credits _ _ (to_cents_ok (or_zero line.debit) debit d)
            (to_cents_ok (or_zero line.credit) credit c)
            (validate_lines-adds_up lines (debits +ℤ debit) (credits +ℤ credit) rest))
