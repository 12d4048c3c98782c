-- ===== src/Accounting/Reversal/Cancellation.antt =====
-- A reversal by `reverseEntry` is the mirror of its entry, on every account, and happens once.
use mathlib.Core.Path.{subst}
use gestion_alquileres_backe.Accounting.Reversal.Balance.{
  reversals_own, reversed_ledger, reverse_entry-Lands, none_posted-Lands, reversal_side,
  reversals_sum, total_lines,
}
use gestion_alquileres_backe.Transaction.Commit.{landed_ok}
use gestion_alquileres_backe.Transaction.{Session}
use gestion_alquileres_backe.Accounting.Reversal.{
  is_line_of, is_posted_entry, postings_of, reversal_line, reverse_entry, mark_entry_if,
  entry_lines,
}
use gestion_alquileres_backe.Money.Currency.{Code}
use gestion_alquileres_backe.Accounting.Ledger.Balance.{
  total, debit_of, IsBalanced, credit_of, total-append, total_other, total_own,
}
use gestion_alquileres_backe.Prelude.Int.{ℤ, pos, pos_part, ◌+ℤ◌, +ℤ_comm}
use gestion_alquileres_backe.Accounting.Tables.{
  JournalLine, LedgerTables, ReverseJournalEntryInput, JournalEntry, PostedJournalEntry,
}
use gestion_alquileres_backe.Money.Decimal.{DecimalLib}
use gestion_alquileres_backe.Prelude.{
  ℕ, List, All, if◌then◌else◌, ◌≡◌, ◌<◌, filter_by, ◌==◌, ap, ◌≢◌, ltb, [], map, length, ◌∙◌, ◌∷◌,
  ok, false, Bool-cases, ◌++◌, arith, inl, inr, All-mono, refl, sym,
}

-- a side of a line, where the line is on the account
unfoldable pub on_account : ℕ → (JournalLine → ℤ) → JournalLine → ℤ
on_account account side line = if line.account_id == account then side line else pos 0

-- the other accounts and the other side
exchange :
    (account : ℕ) (f g : JournalLine → ℤ) (x y : JournalLine)
    → x.account_id ≡ y.account_id
    → f x ≡ g y
    → on_account account f x ≡ on_account account g y
unfolding on_account
exchange account f g x y e h =
    ap (λ n. if n == account then f x else pos 0) e
    ∙ ap (λ z. if y.account_id == account then z else pos 0) h

-- The reversing entry has, on every account, the original's credit as its debit and the debit as its
-- credit; and the original counts as posted no more.
pub record IsCancelled (original reversal : ℕ) (t : LedgerTables) : Type 0 where
  pub debits :
      (account : ℕ)
      → total (on_account account debit_of) reversal t.journal_lines
        ≡ total (on_account account credit_of) original t.journal_lines
  pub credits :
      (account : ℕ)
      → total (on_account account credit_of) reversal t.journal_lines
        ≡ total (on_account account debit_of) original t.journal_lines
  pub no_posting : postings_of original t ≡ []

-- no line stands under the next number
no_lines_yet :
    (entry : ℕ) (lines : List JournalLine)
    → All (λ line. line.journal_entry_id < entry) lines
    → filter_by (is_line_of entry) lines ≡ []
no_lines_yet entry [] h = refl
no_lines_yet entry (line ∷ lines) (p, h) =
    let other : line.journal_entry_id == entry ≡ false = ground (arith, p) in
    rw (other, filter_by) (no_lines_yet entry lines h)

marked_not_posted :
    (id reversal : ℕ) (entries : List JournalEntry)
    → filter_by (is_posted_entry id) (map (mark_entry_if id reversal) entries) ≡ []
marked_not_posted id reversal [] = refl
marked_not_posted id reversal (e ∷ es) = elim (Bool-cases (e.id == id)) [
  | inl here ↦ rw (here, filter_by) (rw here (marked_not_posted id reversal es))
  | inr other ↦ rw (other, filter_by) (rw other (marked_not_posted id reversal es))
]

two_lines : (lines : List JournalLine) → lines ≡ [] → ltb (length lines) 2 ≢ false
two_lines [] e g = cc
two_lines (x ∷ xs) e g = cc

module _ ⦃dec : DecimalLib⦄ where
  same_account :
      (entry : ℕ) (number : Code) (line : JournalLine)
      → (reversal_line entry number line).account_id ≡ line.account_id
  unfolding reversal_line
  same_account entry number line = refl

  -- a side of the reversal is the other side of the original, in the new ledger
  mirrored :
      (f g : JournalLine → ℤ) (id : ℕ) (number : Code) (t : LedgerTables)
      → All (λ line. line.journal_entry_id < t.next_entry_id) t.journal_lines
      → id ≢ t.next_entry_id
      → ((line : JournalLine) → f (reversal_line t.next_entry_id number line) ≡ g line)
      → let rows = map (reversal_line t.next_entry_id number) (entry_lines id t) in
        total f t.next_entry_id (t.journal_lines ++ rows) ≡ total g id (t.journal_lines ++ rows)
  mirrored f g id number t numbered apart h =
      let entry = t.next_entry_id in
      let rows = map (reversal_line entry number) (entry_lines id t) in
      let own = reversals_own entry number (entry_lines id t) in
      let before = All-mono (λ line p same. ground (arith, p)) t.journal_lines numbered in
      let others = All-mono (λ line p same. apart (sym same ∙ p)) rows own in
      total-append f entry t.journal_lines rows
      ∙ ap (λ x. x +ℤ total f entry rows) (total_other f entry t.journal_lines before)
      ∙ ap (λ x. pos 0 +ℤ x)
          (total_own f entry rows own
            ∙ reversals_sum f g entry number _ h
            ∙ total_lines g id t.journal_lines)
      ∙ +ℤ_comm _ _
      ∙ ap (λ x. total g id t.journal_lines +ℤ x) (sym (total_other g id rows others))
      ∙ sym (total-append g id t.journal_lines rows)

  reversed_ledger-IsCancelled :
      (input : ReverseJournalEntryInput) (original : JournalEntry) (number : Code)
      (t : LedgerTables)
      → IsBalanced t
      → ltb (length (entry_lines (pos_part input.entry_id) t)) 2 ≡ false
      → IsCancelled
          (pos_part input.entry_id)
          t.next_entry_id
          (reversed_ledger input original number t)
  reversed_ledger-IsCancelled input original number t b g = record {
    debits = λ account.
        mirrored (on_account account debit_of) (on_account account credit_of) id _ t b.numbered
          apart (λ line. mirror account debit_of credit_of line (reversal_side _ _ line).0);
    credits = λ account.
        mirrored (on_account account credit_of) (on_account account debit_of) id _ t b.numbered
          apart (λ line. mirror account credit_of debit_of line (reversal_side _ _ line).1);
    no_posting = marked_not_posted id t.next_entry_id _;
  }
    where
      id : ℕ
      id = pos_part input.entry_id

      apart : id ≢ t.next_entry_id
      apart same =
          two_lines (entry_lines id t)
            (subst (λ n. filter_by (is_line_of n) t.journal_lines ≡ []) (sym same)
              (no_lines_yet t.next_entry_id t.journal_lines b.numbered))
            g

      mirror :
          (account : ℕ) (f h : JournalLine → ℤ) (line : JournalLine)
          → f (reversal_line t.next_entry_id original.entry_number line) ≡ h line
          → on_account account f (reversal_line t.next_entry_id original.entry_number line)
            ≡ on_account account h line
      mirror account f h line =
          exchange account f h _ line (same_account t.next_entry_id original.entry_number line)

  -- A reversal that returns cancels its entry: the entry that it writes, which takes the ledger's next
  -- number, has on every account as its debits what the original has there as its credits, and as its
  -- credits what the original has as its debits, and no posted entry of the original's number is left.
  -- The ledger before it is one whose lines are numbered below the next number and whose entries
  -- balance.
  pub reverse_entry_cancels :
      (input : ReverseJournalEntryInput) (uuid : Code) (reversal : PostedJournalEntry)
      (s : Session LedgerTables)
      → IsBalanced s.store
      → (reverse_entry input uuid s).0 ≡ ok reversal
      → IsCancelled
          (pos_part input.entry_id)
          s.store.next_entry_id
          (reverse_entry input uuid s).1.store
  reverse_entry_cancels input uuid reversal s b h =
      landed_ok (IsCancelled (pos_part input.entry_id) s.store.next_entry_id) _ reversal
        ((reverse_entry-Lands input uuid s.store
            (λ original g. reversed_ledger-IsCancelled input original _ s.store b g)).lands
          s refl)
        h

  -- An entry is reversed once: after a reversal that returned, a second one of the same entry never
  -- returns, whatever its date, its description and its number.
  pub reverse_entry_once :
      (first second : ReverseJournalEntryInput) (uuid uuid' : Code)
      (reversal again : PostedJournalEntry) (s : Session LedgerTables)
      → IsBalanced s.store
      → second.entry_id ≡ first.entry_id
      → (reverse_entry first uuid s).0 ≡ ok reversal
      → ¬ ((reverse_entry second uuid' (reverse_entry first uuid s).1).0 ≡ ok again)
  reverse_entry_once first second uuid uuid' reversal again s b same h k =
      let t = (reverse_entry first uuid s).1.store in
      let none_left = (reverse_entry_cancels first uuid reversal s b h).no_posting in
      let none_named = subst (λ n. postings_of (pos_part n) t ≡ []) (sym same) none_left in
      landed_ok (λ x. ⊥) _ again ((none_posted-Lands second uuid' t none_named).lands _ refl) k
