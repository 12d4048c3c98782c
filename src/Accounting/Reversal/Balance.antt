-- ===== src/Accounting/Reversal/Balance.antt =====
-- `reverseEntry` keeps the double entry.
use mathlib.Core.List.{append-nil, append_assoc}
use gestion_alquileres_backe.Accounting.Dates.{parse_accounting_date}
use mathlib.Core.Path.{subst}
use gestion_alquileres_backe.Accounting.Ledger.Steps.{with_lines, assert_month_open-Lands}
use gestion_alquileres_backe.Money.Numeral.{round2-cents}
use gestion_alquileres_backe.Transaction.Commit.{
  Lands, pure->>-Lands, Lands→Keeps, throw-Lands, select->>=-Lands, throw_when->>-Lands,
  query->>=-Lands, update->>-Lands, Keeps→Lands, >>=-assoc-Lands, transaction-Lands,
}
use gestion_alquileres_backe.Transaction.Rules.{Keeps, >>-Keeps, throw_when-Keeps, pure-Keeps}
use gestion_alquileres_backe.Transaction.{◌>>◌, Action, update}
use gestion_alquileres_backe.Accounting.Ledger.{append_line, insert_entry, create_entry_number}
use gestion_alquileres_backe.Money.Currency.{Code}
use gestion_alquileres_backe.Prelude.Int.{sum_ℤ, ℤ, pos_part, ◌+ℤ◌, int_laws}
use gestion_alquileres_backe.Accounting.Reversal.{
  reversal_line, insert_reversals, reverse_found, reverse_entry, write_reversal, mark_reversed,
  entry_lines, is_line_of, reversal_row, postings_of, mark_entry_if,
}
use gestion_alquileres_backe.Accounting.Tables.{
  JournalLine, ReverseJournalEntryInput, JournalEntry, LedgerTables, LedgerError, bad_entry_id,
  entry_not_found, few_original_lines,
}
use gestion_alquileres_backe.Money.Decimal.{DecimalLib}
use gestion_alquileres_backe.Accounting.Ledger.Balance.{
  total, share, debit_of, IsBalanced, credit_of, with_next, with_next-IsBalanced,
}
use gestion_alquileres_backe.Prelude.{
  ℕ, List, ◌==◌, map, ◌≡◌, All, filter_by, ◌∷◌, ltb, ap, [], length, Bool-cases, ◌++◌, false, ◌∙◌,
  refl, inl, sym, inr,
}

-- The lines that were read are the entry's.
pub total_lines :
    (side : JournalLine → ℤ) (entry : ℕ) (lines : List JournalLine)
    → sum_ℤ (map side (filter_by (is_line_of entry) lines)) ≡ total side entry lines
unfolding total share sum_ℤ
total_lines side entry [] = refl
total_lines side entry (x ∷ xs) = elim (Bool-cases (x.journal_entry_id == entry)) [
  | inl own ↦ rw (own, filter_by, map, sum_ℤ) (ap (λ z. side x +ℤ z) (total_lines side entry xs))
  | inr other ↦ rw (other, filter_by) (total_lines side entry xs ∙ omega int_laws)
]

module _ ⦃dec : DecimalLib⦄ where
  pub reversal_side :
      (entry : ℕ) (number : Code) (line : JournalLine)
      → (debit_of (reversal_line entry number line) ≡ credit_of line)
        × (credit_of (reversal_line entry number line) ≡ debit_of line)
  unfolding reversal_line
  reversal_side entry number line =
      (ap (λ d. d.units) (round2-cents line.credit), ap (λ d. d.units) (round2-cents line.debit))

  pub reversals_own :
      (entry : ℕ) (number : Code) (lines : List JournalLine)
      → All (λ row. row.journal_entry_id ≡ entry) (map (reversal_line entry number) lines)
  unfolding reversal_line
  reversals_own entry number [] = tt
  reversals_own entry number (line ∷ lines) = (refl, reversals_own entry number lines)

  -- A side of the reversal's lines is the other side of the original's.
  pub reversals_sum :
      (f g : JournalLine → ℤ) (entry : ℕ) (number : Code) (lines : List JournalLine)
      → ((line : JournalLine) → f (reversal_line entry number line) ≡ g line)
      → sum_ℤ (map f (map (reversal_line entry number) lines)) ≡ sum_ℤ (map g lines)
  unfolding sum_ℤ
  reversals_sum f g entry number [] h = refl
  reversals_sum f g entry number (line ∷ lines) h =
      rw (h line, reversals_sum f g entry number lines h) refl

  insert_reversals-Lands :
      {A : Type 0} {P : LedgerTables → Type 0} (entry : ℕ) (number : Code)
      (lines : List JournalLine) (k : Action LedgerTables LedgerError A) (t : LedgerTables)
      → Lands (with_lines (map (reversal_line entry number) lines) t) k P
      → Lands t (insert_reversals entry number lines >> k) P
  unfolding insert_reversals append_line ◌>>◌
  insert_reversals-Lands {P = P} entry number [] k t l =
      pure->>-Lands k t
        (subst (λ x. Lands (record t { journal_lines = x }) k P) (append-nil t.journal_lines) l)
  insert_reversals-Lands {P = P} entry number (line ∷ lines) k t l =
      let row = reversal_line entry number line in
      >>=-assoc-Lands (update (append_line row)) (λ _. insert_reversals entry number lines) (λ _. k)
        t
        (update->>-Lands (append_line row) (insert_reversals entry number lines >> k) t (
          insert_reversals-Lands entry number lines k (append_line row t) (
            subst (λ x. Lands (record t { journal_lines = x }) k P)
              (sym
                (append_assoc t.journal_lines (row ∷ []) (map (reversal_line entry number) lines)))
              l)))

  -- the ledger once the reversal is written
  abbrev pub reversed_ledger :
      ReverseJournalEntryInput → JournalEntry → Code → LedgerTables → LedgerTables
  reversed_ledger input original number t =
      let id = pos_part input.entry_id in
      with_next
        (map (mark_entry_if id t.next_entry_id)
          (t.journal_entries ++ (reversal_row input original number t.next_entry_id ∷ [])))
        (map (reversal_line t.next_entry_id original.entry_number) (entry_lines id t)) t

  -- A reversal that returns has written the reversing entry under the next number.
  pub reverse_found-Lands :
      {P : LedgerTables → Type 0} (input : ReverseJournalEntryInput) (uuid : Code)
      (found : List JournalEntry) (t : LedgerTables)
      → ((original : JournalEntry)
          → ltb (length (entry_lines (pos_part input.entry_id) t)) 2 ≡ false
          → P (reversed_ledger input original (create_entry_number uuid) t))
      → Lands t (reverse_found input uuid found) P
  unfolding reverse_found write_reversal insert_entry mark_reversed
  reverse_found-Lands input uuid [] t h = throw-Lands entry_not_found t
  reverse_found-Lands input uuid (original ∷ rest) t h =
      assert_month_open-Lands (parse_accounting_date input.reversal_date) _ t (
        select->>=-Lands (entry_lines (pos_part input.entry_id)) _ t (
          throw_when->>-Lands _ few_original_lines _ t (λ g.
            query->>=-Lands (insert_entry (reversal_row input original (create_entry_number uuid)))
              _ t
              (insert_reversals-Lands t.next_entry_id original.entry_number
                (entry_lines (pos_part input.entry_id) t) _ _
                (update->>-Lands (mark_reversed (pos_part input.entry_id) t.next_entry_id) _ _
                  (Keeps→Lands _ _ (h original g) (pure-Keeps _)))))))

  reversed_ledger-IsBalanced :
      (input : ReverseJournalEntryInput) (original : JournalEntry) (number : Code)
      (t : LedgerTables)
      → IsBalanced t
      → IsBalanced (reversed_ledger input original number t)
  reversed_ledger-IsBalanced input original number t b =
      let id = pos_part input.entry_id in
      let entry = t.next_entry_id in
      let lines = entry_lines id t in
      let side = reversal_side entry original.entry_number in
      with_next-IsBalanced t _ _ b (reversals_own entry original.entry_number lines) (
        reversals_sum debit_of credit_of entry _ lines (λ line. (side line).0)
        ∙ total_lines credit_of id t.journal_lines
        ∙ sym (b.balanced id)
        ∙ sym (total_lines debit_of id t.journal_lines)
        ∙ sym (reversals_sum credit_of debit_of entry _ lines (λ line. (side line).1)))

  pub reverse_entry-Keeps :
      (input : ReverseJournalEntryInput) (uuid : Code) → Keeps IsBalanced (reverse_entry input uuid)
  unfolding reverse_entry
  reverse_entry-Keeps input uuid = >>-Keeps (throw_when-Keeps _ bad_entry_id) (
      Lands→Keeps _ (λ t b. select->>=-Lands (postings_of (pos_part input.entry_id)) _ t (
        reverse_found-Lands input uuid _ t
          (λ original g. reversed_ledger-IsBalanced input original _ t b))))

  pub reverse_entry-Lands :
      {P : LedgerTables → Type 0} (input : ReverseJournalEntryInput) (uuid : Code)
      (t : LedgerTables)
      → ((original : JournalEntry)
          → ltb (length (entry_lines (pos_part input.entry_id) t)) 2 ≡ false
          → P (reversed_ledger input original (create_entry_number uuid) t))
      → Lands t (reverse_entry input uuid) P
  unfolding reverse_entry
  reverse_entry-Lands input uuid t h = throw_when->>-Lands _ bad_entry_id _ t (λ g.
      transaction-Lands _ t (
        select->>=-Lands (postings_of (pos_part input.entry_id)) _ t
          (reverse_found-Lands input uuid _ t h)))

  -- Without a posted entry nothing returns.
  pub none_posted-Lands :
      {P : LedgerTables → Type 0} (input : ReverseJournalEntryInput) (uuid : Code)
      (t : LedgerTables)
      → postings_of (pos_part input.entry_id) t ≡ []
      → Lands t (reverse_entry input uuid) P
  unfolding reverse_entry reverse_found
  none_posted-Lands input uuid t e = throw_when->>-Lands _ bad_entry_id _ t (λ g.
      transaction-Lands _ t (
        select->>=-Lands (postings_of (pos_part input.entry_id)) _ t
          (rw e (throw-Lands entry_not_found t))))
