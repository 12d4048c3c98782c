-- ===== src/Accounting/Books/Accepted.antt =====
-- What the posting services of src/accounting write is accepted by the ledger.
use Prim.Native.Nat.{zero}
use gestion_alquileres_backe.Prelude.{◌>>◌, not}
use mathlib.Core.Bool.{true}
use gestion_alquileres_backe.Accounting.Books.{rent, deposit, late_fee}
use gestion_alquileres_backe.Payments.Refunds.Bound.{to_cents-round2}
use gestion_alquileres_backe.Prelude.{
  ◌≡◌, false, ok, none, List, Bool, arith, if◌then◌else◌, ap, ◌∙◌, ◌∷◌, refl, true, [], ◌&&◌,
  throw_if, suc, ◌||◌, zero,
}
use gestion_alquileres_backe.Money.Numeral.{to_places, Decimal, cents, round2, whole, round2-cents}
use gestion_alquileres_backe.Payments.Refunds.{to_cents}
use gestion_alquileres_backe.Money.Currency.{is_blank, Code, codes}
use gestion_alquileres_backe.Accounting.Books.Entries.{
  payment_entry, income_account, expense_account, refund_entry, expense_entry,
  expense_payment_entry, vendor_payment_entry, transfer_entry, debit_line, credit_line, one_of,
  is_unpaid,
}
use gestion_alquileres_backe.Money.Decimal.{DecimalLib, round_div_exact}
use gestion_alquileres_backe.Accounting.Validation.{
  is_blank_code, to_entry_cents, or_zero, validate_lines, validate_entry,
}
use gestion_alquileres_backe.Prelude.Int.{
  ℤ, pos, ◌≤ℤ◌, ◌*ℤ◌, ltb_ℤ, ◌<ℤ◌, ◌+ℤ◌, is_zero, ◌-ℤ◌, int_laws, negsuc, pos_part, neg_part,
}
use gestion_alquileres_backe.Accounting.Tables.{
  PostJournalEntryInput, References, JournalLineInput, not_one_sided, not_balanced,
}
use gestion_alquileres_backe.Accounting.Books.{
  BookedPayment, BookedRefund, BookedExpense, BookedExpensePayment, PaymentType, BookedStatement,
  rent, deposit, late_fee, utility, hoa_fee, pet_fee, parking_fee, application_fee, maintenance_fee,
  other_type,
}

-- a row that is posted by two lines, of one amount
pub data Posting : Type 0 where
  of_payment : BookedPayment → Posting
  of_refund : BookedRefund → BookedPayment → Posting
  of_expense : BookedExpense → Posting
  of_expense_payment : BookedExpense → Posting
  of_vendor_payment : BookedExpensePayment → BookedExpense → Posting
  of_transfer : Code → BookedStatement → Posting

unfoldable pub entry_of_posting : Posting → PostJournalEntryInput
entry_of_posting (of_payment p) = payment_entry p
entry_of_posting (of_refund r p) = refund_entry r p
entry_of_posting (of_expense e) = expense_entry e
entry_of_posting (of_expense_payment e) = expense_payment_entry e
entry_of_posting (of_vendor_payment p e) = vendor_payment_entry p e
entry_of_posting (of_transfer today s) = transfer_entry today s

abbrev pub amount_of_posting : Posting → ℤ
amount_of_posting (of_payment p) = p.amount
amount_of_posting (of_refund r p) = r.amount
amount_of_posting (of_expense e) = e.amount
amount_of_posting (of_expense_payment e) = e.amount
amount_of_posting (of_vendor_payment p e) = p.amount
amount_of_posting (of_transfer today s) = s.net_amount

income_account-named : (t : PaymentType) → is_blank_code (income_account t) ≡ false
unfolding is_blank_code income_account is_blank
income_account-named rent = refl
income_account-named deposit = refl
income_account-named late_fee = refl
income_account-named utility = refl
income_account-named hoa_fee = refl
income_account-named pet_fee = refl
income_account-named parking_fee = refl
income_account-named application_fee = refl
income_account-named maintenance_fee = refl
income_account-named other_type = refl

expense_account-named : (category : Code) → is_blank_code (expense_account category) ≡ false
unfolding is_blank_code expense_account is_blank
expense_account-named category =
    go (one_of category (codes "MAINTENANCE" ∷ codes "REPAIRS" ∷ []))
      (one_of category (codes "CLEANING" ∷ codes "LAUNDRY" ∷ codes "SUPPLIES" ∷ []))
      (one_of category (codes "INSURANCE" ∷ codes "TAX" ∷ codes "LEGAL" ∷ []))
  where
    go :
        (a b c : Bool)
        → is_blank_code (
            if a
            then codes "5200"
            else if b
            then codes "5300"
            else if c
            then codes "5400"
            else codes "5000")
          ≡ false
    go true b c = refl
    go false true c = refl
    go false false true = refl
    go false false false = refl

not_zero : (a : ℤ) → pos 0 <ℤ a → is_zero a ≡ false
not_zero (pos zero) h = elim h [ ]
not_zero (pos (suc n)) h = refl
not_zero (negsuc n) h = refl

-- one positive amount makes a line one-sided
one_side :
    (a : ℤ)
    → pos 0 <ℤ a
    → ((ltb_ℤ (pos 0) a && false) || (is_zero a && true) ≡ false)
      × ((false && ltb_ℤ (pos 0) a) || (true && is_zero a) ≡ false)
one_side a h = ground (arith, not_zero a h)

cash_or_payable : (b : Bool) → is_blank_code (if b then codes "2300" else codes "1100") ≡ false
unfolding is_blank_code is_blank
cash_or_payable true = refl
cash_or_payable false = refl

module _ ⦃dec : DecimalLib⦄ where
  passes :
      (amount : Decimal)
      → ltb_ℤ amount.units (pos 0) ≡ false
      → to_entry_cents amount ≡ ok (round2 amount).units
  unfolding to_entry_cents to_cents
  passes amount h = rw h (ap ok (to_cents-round2 amount))

  cents_pass : (x : ℤ) → pos 0 ≤ℤ x → to_entry_cents (cents x) ≡ ok x
  cents_pass x h = passes (cents x) (ground arith) ∙ ap (λ d. ok d.units) (round2-cents x)

  nothing_passes : to_entry_cents (or_zero none) ≡ ok (pos 0)
  unfolding or_zero to_places ◌*ℤ◌
  nothing_passes = passes (whole (pos 0)) refl ∙ ap ok (round_div_exact (pos 0) 1 (omega arith))

  pub balanced_end : (d c : ℤ) → d ≡ c → validate_lines [] d c ≡ ok tt
  unfolding validate_lines
  balanced_end d c e =
      let none : d -ℤ c ≡ pos 0 = omega (int_laws, ap pos_part e, ap neg_part e) in
      ap (λ x. throw_if (not (is_zero x)) not_balanced) none

  -- A line of a positive amount, on a named account, adds to its side.
  pub debit_step :
      (code : Code) (amount : ℤ) (about : References) (memo : Code) (rest : List JournalLineInput)
      (debits credits : ℤ)
      → is_blank_code code ≡ false
      → pos 0 <ℤ amount
      → validate_lines (debit_line code amount about memo ∷ rest) debits credits
        ≡ validate_lines rest (debits +ℤ amount) (credits +ℤ pos 0)
  unfolding validate_lines or_zero
  debit_step code amount about memo rest debits credits named h =
      rw (named, cents_pass amount (omega arith), nothing_passes)
        (ap
          (λ b.
            throw_if b not_one_sided >> validate_lines rest (debits +ℤ amount) (credits +ℤ pos 0))
          (one_side amount h).0)

  pub credit_step :
      (code : Code) (amount : ℤ) (about : References) (memo : Code) (rest : List JournalLineInput)
      (debits credits : ℤ)
      → is_blank_code code ≡ false
      → pos 0 <ℤ amount
      → validate_lines (credit_line code amount about memo ∷ rest) debits credits
        ≡ validate_lines rest (debits +ℤ pos 0) (credits +ℤ amount)
  unfolding validate_lines or_zero
  credit_step code amount about memo rest debits credits named h =
      rw (named, cents_pass amount (omega arith), nothing_passes)
        (ap
          (λ b.
            throw_if b not_one_sided >> validate_lines rest (debits +ℤ pos 0) (credits +ℤ amount))
          (one_side amount h).1)

  two_lines :
      (code code' : Code) (amount : ℤ) (about about' : References) (memo memo' : Code)
      → is_blank_code code ≡ false
      → is_blank_code code' ≡ false
      → pos 0 <ℤ amount
      → validate_lines
          (debit_line code amount about memo ∷ credit_line code' amount about' memo' ∷ [])
          (pos 0)
          (pos 0)
        ≡ ok tt
  two_lines code code' amount about about' memo memo' named named' h =
      debit_step code amount about memo _ (pos 0) (pos 0) named h
      ∙ credit_step code' amount about' memo' [] _ _ named' h
      ∙ balanced_end (pos 0 +ℤ amount +ℤ pos 0) (pos 0 +ℤ pos 0 +ℤ amount) (omega int_laws)

  -- What is posted by two lines is accepted: of a payment, a refund, an expense, a paid expense, a
  -- payment of an expense and a transfer to an owner, each of a positive amount, the entry passes
  -- `validateEntry`.
  pub postings_accepted :
      (p : Posting) → pos 0 <ℤ amount_of_posting p → validate_entry (entry_of_posting p) ≡ ok tt
  unfolding validate_entry entry_of_posting payment_entry refund_entry expense_entry
      expense_payment_entry vendor_payment_entry transfer_entry is_blank_code is_blank
  postings_accepted (of_payment p) h =
      two_lines (codes "1100") (income_account p.payment_type) p.amount _ _ _ _ refl
        (income_account-named p.payment_type) h
  postings_accepted (of_refund r p) h =
      two_lines (income_account p.payment_type) (codes "1100") r.amount _ _ _ _
        (income_account-named p.payment_type) refl h
  postings_accepted (of_expense e) h =
      two_lines (expense_account e.category) _ e.amount _ _ _ _ (expense_account-named e.category)
        (cash_or_payable (is_unpaid e.payment_status)) h
  postings_accepted (of_expense_payment e) h =
      two_lines (codes "2300") (codes "1100") e.amount _ _ _ _ refl refl h
  postings_accepted (of_vendor_payment p e) h =
      two_lines (codes "2300") (codes "1100") p.amount _ _ _ _ refl refl h
  postings_accepted (of_transfer today s) h =
      two_lines (codes "2100") (codes "1100") s.net_amount _ _ _ _ refl refl h
