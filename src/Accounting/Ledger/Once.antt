-- ===== src/Accounting/Ledger/Once.antt =====
-- What came from a source is posted once.
use mathlib.Core.Path.{subst}
use gestion_alquileres_backe.Accounting.Dates.{parse_accounting_date}
use gestion_alquileres_backe.Accounting.Ledger.Steps.{
  assert_month_open-Lands, find_given-Lands, insert_lines-Lands,
}
use gestion_alquileres_backe.Accounting.Validation.{validate_entry}
use mathlib.Core.Option.{none}
use gestion_alquileres_backe.Transaction.Rules.{Keeps, pure-Keeps}
use gestion_alquileres_backe.Transaction.Commit.{
  Lands, Keeps→Lands, lift->>-Lands, lift->>-Keeps, transaction-Lands, Lands→Keeps, query->>=-Lands,
  landed_ok,
}
use gestion_alquileres_backe.Transaction.{Session}
use gestion_alquileres_backe.Accounting.Tables.{
  JournalEntry, PostJournalEntryInput, LedgerTables, PostedJournalEntry,
}
use gestion_alquileres_backe.Money.Currency.{Code, code_eq_refl}
use gestion_alquileres_backe.Money.Decimal.{DecimalLib}
use gestion_alquileres_backe.Accounting.Ledger.{
  is_given, first_entry, option_eq, post_unless, post_entry, insert_entry, entry_of, has_source,
  new_entry, create_entry_number,
}
use gestion_alquileres_backe.Prelude.{
  Option, ◌≡◌, ◌&&◌, Bool, true, List, some, arith, filter_by, ok, ◌++◌, none, ◌∷◌, [], Bool-cases,
  inl, refl, inr, sym, ap, ◌∙◌,
}

abbrev pub IsPosted : Option Code → Option Code → LedgerTables → Type 0
IsPosted source_module source_id t =
    (e : PostedJournalEntry) × (entry_of source_module source_id t ≡ some e)

option_eq_self : (a : Option Code) → is_given a ≡ true → option_eq a a ≡ true
unfolding is_given option_eq
option_eq_self none h = cc
option_eq_self (some a) h = code_eq_refl a

is_given_both :
    (a b : Option Code)
    → is_given a && is_given b ≡ true
    → (is_given a ≡ true) × (is_given b ≡ true)
is_given_both a b h = ground arith

-- a row at the end is found, if no row before it is
first_found :
    (p : JournalEntry → Bool) (rows : List JournalEntry) (row : JournalEntry)
    → p row ≡ true
    → (e : PostedJournalEntry) × (first_entry (filter_by p (rows ++ (row ∷ []))) ≡ some e)
unfolding first_entry
first_found p [] row h =
    (record { id = row.id; entry_number = row.entry_number }, rw (h, filter_by) refl)
first_found p (x ∷ rows) row h = elim (Bool-cases (p x)) [
  | inl here ↦ (record { id = x.id; entry_number = x.entry_number }, rw (here, filter_by) refl)
  | inr later ↦ rw (later, filter_by) (first_found p rows row h)
]

module _ ⦃dec : DecimalLib⦄ where
  post_unless-IsPosted :
      (input : PostJournalEntryInput) (uuid : Code) (t : LedgerTables)
      (found : Option PostedJournalEntry)
      → is_given input.source_module && is_given input.source_id ≡ true
      → entry_of input.source_module input.source_id t ≡ found
      → Lands t (post_unless found input uuid) (IsPosted input.source_module input.source_id)
  unfolding post_unless insert_entry has_source new_entry
  post_unless-IsPosted input uuid t (some e) given f = Keeps→Lands _ t (e, f) (pure-Keeps e)
  post_unless-IsPosted input uuid t none given f =
      let row = new_entry input (create_entry_number uuid) in
      let both = is_given_both input.source_module input.source_id given in
      assert_month_open-Lands (parse_accounting_date input.entry_date) _ t (
        query->>=-Lands (insert_entry row) _ t (
          insert_lines-Lands t.next_entry_id input.lines _ _ (λ rows a.
            Keeps→Lands _ _
              (first_found (has_source input.source_module input.source_id) t.journal_entries
                (row t.next_entry_id)
                (rw
                  (option_eq_self input.source_module both.0, option_eq_self input.source_id both.1)
                  refl))
              (pure-Keeps _))))

  pub source_lands :
      (input : PostJournalEntryInput) (uuid : Code) (t : LedgerTables)
      → is_given input.source_module && is_given input.source_id ≡ true
      → Lands t (post_entry input uuid) (IsPosted input.source_module input.source_id)
  unfolding post_entry
  source_lands input uuid t given = lift->>-Lands (validate_entry input) _ t (λ done v.
      transaction-Lands _ t (
        find_given-Lands input.source_module input.source_id _ t given
          (post_unless-IsPosted input uuid t _ given refl)))

  pub second_entry-Keeps :
      (input : PostJournalEntryInput) (uuid : Code) (t : LedgerTables)
      → is_given input.source_module && is_given input.source_id ≡ true
      → IsPosted input.source_module input.source_id t
      → Keeps (λ x. x ≡ t) (post_entry input uuid)
  unfolding post_entry post_unless
  second_entry-Keeps input uuid t given (e, f) = lift->>-Keeps (validate_entry input) _ (λ done v.
      Lands→Keeps _ (λ u same. find_given-Lands input.source_module input.source_id _ u given (
        subst (λ o. Lands u (post_unless o input uuid) (λ x. x ≡ t))
          (sym (ap (entry_of input.source_module input.source_id) same ∙ f))
          (Keeps→Lands _ u same (pure-Keeps e)))))

  -- What has a source is posted once: after a posting that returned, posting anything else of the same
  -- source module and id, neither of them empty, leaves every table as it was, whatever the second
  -- entry holds and whichever way it ends.
  pub post_entry_once :
      (first second : PostJournalEntryInput) (uuid uuid' : Code) (posted : PostedJournalEntry)
      (s : Session LedgerTables)
      → is_given first.source_module && is_given first.source_id ≡ true
      → second.source_module ≡ first.source_module
      → second.source_id ≡ first.source_id
      → (post_entry first uuid s).0 ≡ ok posted
      → (post_entry second uuid' (post_entry first uuid s).1).1.store
        ≡ (post_entry first uuid s).1.store
  post_entry_once first second uuid uuid' posted s given m i h =
      let t = (post_entry first uuid s).1.store in
      let found =
        landed_ok (IsPosted first.source_module first.source_id) _ posted
          ((source_lands first uuid s.store given).lands s refl) h in
      (second_entry-Keeps second uuid' t (rw (m, i) given) (
          subst (λ x. IsPosted x second.source_id t) (sym m)
            (subst (λ x. IsPosted first.source_module x t) (sym i) found))).keep
        (post_entry first uuid s).1 refl
