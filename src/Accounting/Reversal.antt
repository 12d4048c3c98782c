-- ===== src/Accounting/Reversal.antt =====
-- src/accounting/accounting-ledger.service.ts, `reverseEntry`: a posted entry is cancelled by one with
-- debits and credits exchanged.
use gestion_alquileres_backe.Accounting.Periods.{assert_period_open}
use Prim.Native.Nat.{zero}
use mathlib.Core.Option.{none}
use gestion_alquileres_backe.Money.Numeral.{round2, cents}
use gestion_alquileres_backe.Prelude.Int.{pos_part, leb_ℤ, pos}
use gestion_alquileres_backe.Accounting.Ledger.{
  is_given, append_line, insert_entry, create_entry_number,
}
use gestion_alquileres_backe.Transaction.{
  Action, pure, throw, ◌>>=◌, ◌>>◌, update, query, throw_when, select, transaction,
}
use gestion_alquileres_backe.Money.Decimal.{DecimalLib}
use gestion_alquileres_backe.Money.Currency.{Code, codes}
use gestion_alquileres_backe.Prelude.{
  ℕ, Option, Bool, [], suc, if◌then◌else◌, List, true, ◌==◌, filter_by, ◌/◌, some, ◌++◌, map, false,
  ◌&&◌, ltb, none, ◌+◌, ◌∷◌, ◌%◌, zero, length, ◌≡◌, Bool-cases, refl, inl, inr,
}
pub mod Balance
pub mod Cancellation
use gestion_alquileres_backe.Accounting.Tables.{
  posted, reversed, EntryStatus, ReverseJournalEntryInput, JournalEntry, LedgerTables, JournalLine,
  LedgerError, PostedJournalEntry, entry_not_found, bad_entry_id, few_original_lines, json_number,
}

abbrev pub is_posted : EntryStatus → Bool
is_posted posted = true
is_posted _ = false

abbrev pub is_posted_entry : ℕ → JournalEntry → Bool
is_posted_entry id entry = entry.id == id && is_posted entry.status

-- the query of `findPostedEntryForReversal`
abbrev pub postings_of : ℕ → LedgerTables → List JournalEntry
postings_of id t = filter_by (is_posted_entry id) t.journal_entries

abbrev pub is_line_of : ℕ → JournalLine → Bool
is_line_of id line = line.journal_entry_id == id

-- `findEntryLines`
abbrev pub entry_lines : ℕ → LedgerTables → List JournalLine
entry_lines id t = filter_by (is_line_of id) t.journal_lines

-- `String(n)`, by as many rounds as are given
digits_of : ℕ → ℕ → Code
digits_of zero n = []
digits_of (suc rounds) n =
    let rest = digits_of rounds (n / 10) in
    if ltb n 10 then (b'0' + n) ∷ [] else rest ++ ((b'0' + n % 10) ∷ [])

unfoldable pub to_text : ℕ → Code
unfolding digits_of
to_text n = digits_of (suc n) n

given_end : (xs : Code) (x : ℕ) → is_given (some (xs ++ (x ∷ []))) ≡ true
unfolding is_given
given_end [] x = refl
given_end (y ∷ ys) x = refl

-- a number's text is not empty
pub to_text_given : (n : ℕ) → is_given (some (to_text n)) ≡ true
unfolding to_text is_given
to_text_given n = elim (Bool-cases (ltb n 10)) [
  | inl short ↦ rw short refl
  | inr long ↦ rw long (given_end _ _)
]

abbrev text_of : Option Code → Code
text_of none = []
text_of (some text) = text

unfoldable pub reversal_memo : Code → Option Code → Code
reversal_memo number memo =
    if is_given memo then codes "Reversa: " ++ text_of memo else codes "Reversa de " ++ number

-- `description ?? …`
abbrev description_or : Option Code → Code → Code
description_or none number = codes "Reversa del asiento " ++ number
description_or (some text) number = text

unfoldable pub reversal_row : ReverseJournalEntryInput → JournalEntry → Code → ℕ → JournalEntry
reversal_row input original number id =
    let reversed_id = to_text (pos_part input.entry_id) in
    record {
      id = id;
      entry_number = number;
      entry_date = input.reversal_date;
      description = description_or input.description original.entry_number;
      source_module = some (codes "journal_reversal");
      source_id = some reversed_id;
      basis = original.basis;
      status = posted;
      reversed_entry_id = none;
      metadata = (codes "reversedEntryId", json_number (pos_part input.entry_id)) ∷ [];
    }

abbrev pub mark_entry_if : ℕ → ℕ → JournalEntry → JournalEntry
mark_entry_if original reversal entry =
    if entry.id == original
    then record entry { status = reversed; reversed_entry_id = some reversal }
    else entry

-- `UPDATE journal_entries SET status = 'reversed', reversed_entry_id = $1 … WHERE id = $2`
unfoldable pub mark_reversed : ℕ → ℕ → LedgerTables → LedgerTables
mark_reversed original reversal t = record t {
  journal_entries = map (mark_entry_if original reversal) t.journal_entries;
}

module _ ⦃dec : DecimalLib⦄ where
  -- a line of the reversal: the credit is debited and the debit is credited
  unfoldable pub reversal_line : ℕ → Code → JournalLine → JournalLine
  reversal_line entry number line = record {
    journal_entry_id = entry;
    account_id = line.account_id;
    references = line.references;
    debit = (round2 (cents line.credit)).units;
    credit = (round2 (cents line.debit)).units;
    memo = some (reversal_memo number line.memo);
  }

  -- the loop over the original's lines
  unfoldable pub insert_reversals :
      ℕ → Code → List JournalLine → Action LedgerTables LedgerError (Unit {0})
  insert_reversals entry number [] = pure tt
  insert_reversals entry number (line ∷ lines) = do
    update (append_line (reversal_line entry number line))
    insert_reversals entry number lines

  -- behind the guard on the original's lines
  unfoldable pub write_reversal :
      ReverseJournalEntryInput
      → JournalEntry
      → Code
      → List JournalLine
      → Action LedgerTables LedgerError PostedJournalEntry
  write_reversal input original number lines = do
    entry ← query (insert_entry (reversal_row input original number))
    insert_reversals entry original.entry_number lines
    update (mark_reversed (pos_part input.entry_id) entry)
    pure (record { id = entry; entry_number = number })

  -- behind `findPostedEntryForReversal`
  unfoldable pub reverse_found :
      ReverseJournalEntryInput
      → Code
      → List JournalEntry
      → Action LedgerTables LedgerError PostedJournalEntry
  reverse_found input uuid [] = throw entry_not_found
  reverse_found input uuid (original ∷ rest) = do
    assert_period_open input.reversal_date
    lines ← select (entry_lines (pos_part input.entry_id))
    throw_when (ltb (length lines) 2) few_original_lines
    write_reversal input original (create_entry_number uuid) lines

  -- `reverseEntry`
  unfoldable pub reverse_entry :
      ReverseJournalEntryInput → Code → Action LedgerTables LedgerError PostedJournalEntry
  reverse_entry input uuid = do
    throw_when (leb_ℤ input.entry_id (pos 0)) bad_entry_id
    transaction (select (postings_of (pos_part input.entry_id)) >>= reverse_found input uuid)
