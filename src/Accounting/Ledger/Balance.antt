-- ===== src/Accounting/Ledger/Balance.antt =====
-- The double entry: in every entry of the ledger the debits are the credits, to the cent. Posting
-- appends the lines of a new entry, so its own lines alone matter.
use mathlib.Core.Path.{subst}
use gestion_alquileres_backe.Prelude.Int.{ℤ, sum_ℤ, ◌+ℤ◌, pos, int_laws, +ℤ_assoc}
use gestion_alquileres_backe.Prelude.{
  ℕ, List, ◌≡◌, All, if◌then◌else◌, ◌<◌, ==_iff, ◌≢◌, ◌∷◌, ◌++◌, ◌==◌, map, [], suc, Bool-cases,
  refl, ap, inl, ◌∙◌, inr, sym, arith, All-mono, All-append,
}
use gestion_alquileres_backe.Accounting.Tables.{JournalLine, LedgerTables, JournalEntry}

abbrev pub debit_of : JournalLine → ℤ
debit_of line = line.debit

abbrev pub credit_of : JournalLine → ℤ
credit_of line = line.credit

-- a side of a line, where the line is the entry's
unfoldable pub share : (JournalLine → ℤ) → ℕ → JournalLine → ℤ
share side entry line = if line.journal_entry_id == entry then side line else pos 0

-- a side of an entry
unfoldable pub total : (JournalLine → ℤ) → ℕ → List JournalLine → ℤ
total side entry lines = sum_ℤ (map (share side entry) lines)

abbrev pub IsBalancedAt : ℕ → List JournalLine → Type 0
IsBalancedAt entry lines = total debit_of entry lines ≡ total credit_of entry lines

-- The lines belong to entries that have been numbered, and each entry balances.
pub record IsBalanced (t : LedgerTables) : Type 0 where
  pub balanced : (entry : ℕ) → IsBalancedAt entry t.journal_lines
  pub numbered : All (λ line. line.journal_entry_id < t.next_entry_id) t.journal_lines

module _ (side : JournalLine → ℤ) where
  pub total-append :
      (entry : ℕ) (xs ys : List JournalLine)
      → total side entry (xs ++ ys) ≡ total side entry xs +ℤ total side entry ys
  unfolding total sum_ℤ
  total-append entry [] ys = omega int_laws
  total-append entry (x ∷ xs) ys =
      ap (λ z. share side entry x +ℤ z) (total-append entry xs ys) ∙ sym (+ℤ_assoc _ _ _)

  share_own :
      (entry : ℕ) (line : JournalLine)
      → line.journal_entry_id ≡ entry
      → share side entry line ≡ side line
  unfolding share
  share_own entry line h = rw ((==_iff line.journal_entry_id entry).1 h) refl

  share_other :
      (entry : ℕ) (line : JournalLine)
      → line.journal_entry_id ≢ entry
      → share side entry line ≡ pos 0
  unfolding share
  share_other entry line h = elim (Bool-cases (line.journal_entry_id == entry)) [
    | inl same ↦ absurd (h ((==_iff line.journal_entry_id entry).0 same))
    | inr other ↦ rw other refl
  ]

  -- Lines of the entry alone come to all they hold.
  pub total_own :
      (entry : ℕ) (lines : List JournalLine)
      → All (λ line. line.journal_entry_id ≡ entry) lines
      → total side entry lines ≡ sum_ℤ (map side lines)
  unfolding total sum_ℤ
  total_own entry [] h = refl
  total_own entry (x ∷ xs) (e, h) = rw (share_own entry x e, total_own entry xs h) refl

  -- Lines of other entries come to nothing.
  pub total_other :
      (entry : ℕ) (lines : List JournalLine)
      → All (λ line. line.journal_entry_id ≢ entry) lines
      → total side entry lines ≡ pos 0
  unfolding total sum_ℤ
  total_other entry [] h = refl
  total_other entry (x ∷ xs) (e, h) =
      rw (share_other entry x e, total_other entry xs h) (omega int_laws)

-- the ledger with the lines of its next entry
abbrev pub with_next : List JournalEntry → List JournalLine → LedgerTables → LedgerTables
with_next entries rows t = record t {
  journal_entries = entries;
  journal_lines = t.journal_lines ++ rows;
  next_entry_id = suc t.next_entry_id;
}

-- An entry that balances by itself leaves the ledger balanced.
pub with_next-IsBalanced :
    (t : LedgerTables) (entries : List JournalEntry) (rows : List JournalLine)
    → IsBalanced t
    → All (λ line. line.journal_entry_id ≡ t.next_entry_id) rows
    → sum_ℤ (map debit_of rows) ≡ sum_ℤ (map credit_of rows)
    → IsBalanced (with_next entries rows t)
with_next-IsBalanced t entries rows b own even = record {
  balanced = λ entry.
      total-append debit_of entry t.journal_lines rows
      ∙ ap (λ x. x +ℤ total debit_of entry rows) (b.balanced entry)
      ∙ ap (λ x. total credit_of entry t.journal_lines +ℤ x) (new entry)
      ∙ sym (total-append credit_of entry t.journal_lines rows);
  numbered =
      All-append _ t.journal_lines rows
        (All-mono (λ line h. omega arith) t.journal_lines b.numbered)
        (All-mono (λ line h. omega (arith, h)) rows own);
}
  where
    new : (entry : ℕ) → IsBalancedAt entry rows
    new entry = elim (Bool-cases (t.next_entry_id == entry)) [
      | inl same ↦
          let e = (==_iff t.next_entry_id entry).0 same in
          let mine = subst (λ n. All (λ line. line.journal_entry_id ≡ n) rows) e own in
          total_own debit_of entry rows mine ∙ even ∙ sym (total_own credit_of entry rows mine)
      | inr other ↦
          let theirs = All-mono (λ line h same. ground (arith, other)) rows own in
          total_other debit_of entry rows theirs ∙ sym (total_other credit_of entry rows theirs)
    ]
