-- ===== src/Accounting/Ledger.antt =====
-- src/accounting/accounting-ledger.service.ts: `postEntry` and `reverseEntry`. The random part of an
-- entry's number, `randomUUID`, is an argument.
pub mod Steps
pub mod Balance
pub mod Posting
pub mod Once
use gestion_alquileres_backe.Accounting.Periods.{assert_period_open}
use gestion_alquileres_backe.Accounting.Validation.{debit_cents, credit_cents, validate_entry}
use gestion_alquileres_backe.Accounting.Tables.{posted, Json}
use gestion_alquileres_backe.Transaction.{
  Action, throw, pure, ◌>>=◌, ◌>>◌, select, update, lift, query, transaction,
}
use gestion_alquileres_backe.Money.Decimal.{DecimalLib}
use gestion_alquileres_backe.Accounting.Tables.{
  PostJournalEntryInput, JournalLine, JournalEntry, Basis, LedgerTables, Account, JournalLineInput,
  PostedJournalEntry, LedgerError, cash, account_not_found,
}
use gestion_alquileres_backe.Prelude.{
  Option, List, ℕ, Bool, ◌++◌, false, ◌&&◌, none, some, ◌∷◌, if◌then◌else◌, true, [], filter_by,
  suc,
}
use gestion_alquileres_backe.Money.Currency.{Code, codes, code_eq}

-- `createEntryNumber`
unfoldable pub create_entry_number : Code → Code
create_entry_number uuid = codes "JE-" ++ uuid

-- `value && …` of a text: neither null nor empty
unfoldable pub is_given : Option Code → Bool
is_given none = false
is_given (some []) = false
is_given (some (c ∷ cs)) = true

unfoldable pub option_eq : Option Code → Option Code → Bool
option_eq (some a) (some b) = code_eq a b
option_eq _ _ = false

-- `WHERE source_module = $1 AND source_id = $2`; NULL equals nothing
unfoldable pub has_source : Option Code → Option Code → JournalEntry → Bool
has_source source_module source_id entry =
    option_eq entry.source_module source_module && option_eq entry.source_id source_id

unfoldable pub first_entry : List JournalEntry → Option PostedJournalEntry
first_entry [] = none
first_entry (entry ∷ rest) = some (record { id = entry.id; entry_number = entry.entry_number })

abbrev pub entry_of : Option Code → Option Code → LedgerTables → Option PostedJournalEntry
entry_of source_module source_id t =
    first_entry (filter_by (has_source source_module source_id) t.journal_entries)

-- `findExistingEntry`
unfoldable pub find_existing_entry :
    Option Code → Option Code → Action LedgerTables LedgerError (Option PostedJournalEntry)
find_existing_entry source_module source_id =
    if is_given source_module && is_given source_id
    then select
        (λ t. first_entry (filter_by (has_source source_module source_id) t.journal_entries))
    else pure none

-- `basis ?? 'cash'`
abbrev basis_or_cash : Option Basis → Basis
basis_or_cash none = cash
basis_or_cash (some basis) = basis

-- `metadata ?? {}`
abbrev metadata_or_empty : Option Json → Json
metadata_or_empty none = []
metadata_or_empty (some metadata) = metadata

unfoldable pub new_entry : PostJournalEntryInput → Code → ℕ → JournalEntry
new_entry input number id = record {
  id = id;
  entry_number = number;
  entry_date = input.entry_date;
  description = input.description;
  source_module = input.source_module;
  source_id = input.source_id;
  basis = basis_or_cash input.basis;
  status = posted;
  reversed_entry_id = none;
  metadata = metadata_or_empty input.metadata;
}

-- `INSERT INTO journal_entries … RETURNING id`, of the row for the next id
unfoldable pub insert_entry : (ℕ → JournalEntry) → LedgerTables → ℕ × LedgerTables
insert_entry row t = (
  t.next_entry_id,
  record t {
    journal_entries = t.journal_entries ++ (row t.next_entry_id ∷ []);
    next_entry_id = suc t.next_entry_id;
  },
)

-- `INSERT INTO journal_lines`
unfoldable pub append_line : JournalLine → LedgerTables → LedgerTables
append_line line t = record t { journal_lines = t.journal_lines ++ (line ∷ []) }

abbrev pub is_active_code : Code → Account → Bool
is_active_code code account = code_eq account.code code && account.is_active

abbrev pub active_accounts : Code → LedgerTables → List Account
active_accounts code t = filter_by (is_active_code code) t.chart_of_accounts

-- the first row, or the exception
unfoldable pub account_found : List Account → Action LedgerTables LedgerError ℕ
account_found [] = throw account_not_found
account_found (account ∷ rest) = pure account.id

-- `findAccountId`
unfoldable pub find_account_id : Code → Action LedgerTables LedgerError ℕ
find_account_id code = select (active_accounts code) >>= account_found

module _ ⦃dec : DecimalLib⦄ where
  -- `insertJournalLine`; the columns round the amounts to cents
  unfoldable pub journal_line : ℕ → ℕ → JournalLineInput → JournalLine
  journal_line entry account line = record {
    journal_entry_id = entry;
    account_id = account;
    references = line.references;
    debit = debit_cents line;
    credit = credit_cents line;
    memo = line.memo;
  }

  -- the loop over the lines
  unfoldable pub insert_lines :
      ℕ → List JournalLineInput → Action LedgerTables LedgerError (Unit {0})
  insert_lines entry [] = pure tt
  insert_lines entry (line ∷ lines) = do
    account ← find_account_id line.account_code
    update (append_line (journal_line entry account line))
    insert_lines entry lines

  -- behind `findExistingEntry`
  unfoldable pub post_unless :
      Option PostedJournalEntry
      → PostJournalEntryInput
      → Code
      → Action LedgerTables LedgerError PostedJournalEntry
  post_unless (some existing) input uuid = pure existing
  post_unless none input uuid = do
    assert_period_open input.entry_date
    entry ← query (insert_entry (new_entry input (create_entry_number uuid)))
    insert_lines entry input.lines
    pure (record { id = entry; entry_number = create_entry_number uuid })

  -- `postEntry`
  unfoldable pub post_entry :
      PostJournalEntryInput → Code → Action LedgerTables LedgerError PostedJournalEntry
  post_entry input uuid = do
    lift (validate_entry input)
    transaction (do
      existing ← find_existing_entry input.source_module input.source_id
      post_unless existing input uuid)
