-- ===== src/Accounting/Ledger/Posting.antt =====
-- `postEntry` keeps the double entry.
use mathlib.Core.Option.{none}
use gestion_alquileres_backe.Accounting.Dates.{parse_accounting_date}
use gestion_alquileres_backe.Transaction.Commit.{
  Lands, lift->>-Keeps, Lands→Keeps, Keeps→Lands, query->>=-Lands,
}
use gestion_alquileres_backe.Accounting.Ledger.Steps.{
  Appended, find_existing_entry-Lands, assert_month_open-Lands, insert_lines-Lands,
}
use gestion_alquileres_backe.Accounting.Ledger.Balance.{
  IsBalanced, debit_of, credit_of, with_next-IsBalanced,
}
use gestion_alquileres_backe.Prelude.Int.{sum_ℤ, pos, int_laws, pos_part, neg_part}
use gestion_alquileres_backe.Transaction.Rules.{Keeps, pure-Keeps}
use gestion_alquileres_backe.Money.Currency.{Code}
use gestion_alquileres_backe.Accounting.Tables.{
  PostJournalEntryInput, JournalLineInput, PostedJournalEntry, JournalLine, LedgerTables, few_lines,
}
use gestion_alquileres_backe.Prelude.{
  [], ℕ, List, ◌≡◌, Option, ok, map, All, some, throw_if->>-ok, ltb, length, ap, ◌∙◌, sym, ◌∷◌,
  refl,
}
use gestion_alquileres_backe.Accounting.Validation.{
  validate_entry, debit_cents, credit_cents, validate_lines-adds_up,
}
use gestion_alquileres_backe.Accounting.Ledger.{
  journal_line, post_unless, post_entry, insert_entry, new_entry, create_entry_number,
}
use gestion_alquileres_backe.Money.Decimal.{DecimalLib}

module _ ⦃dec : DecimalLib⦄ where
  -- the appended lines are the entry's
  Appended-own :
      (entry : ℕ) (lines : List JournalLineInput) (rows : List JournalLine)
      → Appended entry lines rows
      → All (λ row. row.journal_entry_id ≡ entry) rows
  unfolding journal_line
  Appended-own entry [] [] h = tt
  Appended-own entry [] (row ∷ rows) h = elim h [ ]
  Appended-own entry (line ∷ lines) [] h = elim h [ ]
  Appended-own entry (line ∷ lines) (row ∷ rows) ((account, e), h) =
      (ap (λ r. r.journal_entry_id) e, Appended-own entry lines rows h)

  -- and hold the amounts that were asked for, rounded to cents
  Appended-sides :
      (entry : ℕ) (lines : List JournalLineInput) (rows : List JournalLine)
      → Appended entry lines rows
      → (map debit_of rows ≡ map debit_cents lines) × (map credit_of rows ≡ map credit_cents lines)
  unfolding journal_line
  Appended-sides entry [] [] h = (refl, refl)
  Appended-sides entry [] (row ∷ rows) h = elim h [ ]
  Appended-sides entry (line ∷ lines) [] h = elim h [ ]
  Appended-sides entry (line ∷ lines) (row ∷ rows) ((account, e), h) =
      let rest = Appended-sides entry lines rows h in (rw (e, rest.0) refl, rw (e, rest.1) refl)

  -- what `validateEntry` accepts is even
  validate_entry-even :
      (input : PostJournalEntryInput)
      → validate_entry input ≡ ok tt
      → sum_ℤ (map debit_cents input.lines) ≡ sum_ℤ (map credit_cents input.lines)
  unfolding validate_entry
  validate_entry-even input h =
      let sums =
        validate_lines-adds_up input.lines (pos 0) (pos 0)
          (throw_if->>-ok (ltb (length input.lines) 2) few_lines _ tt h).1 in
      omega (int_laws, ap pos_part sums, ap neg_part sums)

  post_unless-Lands :
      (existing : Option PostedJournalEntry) (input : PostJournalEntryInput) (uuid : Code)
      (t : LedgerTables)
      → validate_entry input ≡ ok tt
      → IsBalanced t
      → Lands t (post_unless existing input uuid) IsBalanced
  unfolding post_unless insert_entry
  post_unless-Lands (some existing) input uuid t v b = Keeps→Lands _ t b (pure-Keeps existing)
  post_unless-Lands none input uuid t v b =
      assert_month_open-Lands (parse_accounting_date input.entry_date) _ t (
        query->>=-Lands (insert_entry (new_entry input (create_entry_number uuid))) _ t (
          insert_lines-Lands t.next_entry_id input.lines _ _ (λ rows a.
            let sides = Appended-sides t.next_entry_id input.lines rows a in
            Keeps→Lands _ _
              (with_next-IsBalanced t _ rows b (Appended-own t.next_entry_id input.lines rows a)
                (ap sum_ℤ sides.0 ∙ validate_entry-even input v ∙ sym (ap sum_ℤ sides.1)))
              (pure-Keeps _))))

  pub post_entry-Keeps :
      (input : PostJournalEntryInput) (uuid : Code) → Keeps IsBalanced (post_entry input uuid)
  unfolding post_entry
  post_entry-Keeps input uuid = lift->>-Keeps (validate_entry input) _ (λ done v.
      Lands→Keeps _ (λ t b.
        find_existing_entry-Lands input.source_module input.source_id _ t
          (λ found. post_unless-Lands found input uuid t v b)))
