-- ===== src/Accounting/Processor/Settled.antt =====
-- An event of src/accounting/accounting-outbox.processor.ts that can be posted is posted.
use mathlib.Core.Path.{subst}
use gestion_alquileres_backe.Payments.Outbox.{posted}
use gestion_alquileres_backe.Accounting.Processor.Rows.{
  KeepsId, is_row_of, PostedRow, all_posted, others_kept, same_number,
}
use gestion_alquileres_backe.Transaction.Rules.{NoFaults, update_runs, >>=-runs}
use gestion_alquileres_backe.Money.Currency.{Code}
use gestion_alquileres_backe.Accounting.Tables.{PostedJournalEntry}
use gestion_alquileres_backe.Accounting.Books.{BooksTables}
use gestion_alquileres_backe.Transaction.{Action, Failure, Session, attempt, ◌>>=◌, pure, ◌>>◌}
use gestion_alquileres_backe.Prelude.{
  ℕ, List, Result, ◌≡◌, ok, map, err, sym, ap, refl, any, All, Bool-cases, true, ◌==◌, inl, ◌∷◌,
  length, ==_iff, All-mono, ◌∙◌, length-map, inr, [], Bool, false, ◌||◌, arith,
}
use gestion_alquileres_backe.Accounting.Processor.{
  OutboxRow, ProcessorTables, ProcessorError, process_event, mark_posted, mark_failed, change_row,
  change_outbox, posted_row, failed_row, process_events, claimed,
}

-- What is known of `handleEvent` while no query fails: it leaves accounting_outbox to the processor, the
-- books stay ready for the event `target`, and there the posting of an event of this number returns
-- that is as `Own` says; a claim leaves it so.
pub record Posts (handle : OutboxRow → Action ProcessorTables ProcessorError PostedJournalEntry)
    (target : ℕ) (Own : OutboxRow → Type 0) (Ready : BooksTables → Type 0) : Type 0 where
  pub claimed_same : (row : OutboxRow) → Own row → Own (claimed row)
  pub faultless :
      (event : OutboxRow) (s : Session ProcessorTables) → NoFaults s → NoFaults (handle event s).1
  pub same_outbox :
      (event : OutboxRow) (s : Session ProcessorTables)
      → (handle event s).1.store.accounting_outbox ≡ s.store.accounting_outbox
  pub stays_ready :
      (event : OutboxRow) (s : Session ProcessorTables)
      → Ready s.store.books
      → Ready (handle event s).1.store.books
  pub returns :
      (event : OutboxRow) (s : Session ProcessorTables)
      → event.id ≡ target
      → Own event
      → NoFaults s
      → Ready s.store.books
      → (entry : PostedJournalEntry) × ((handle event s).0 ≡ ok entry)

-- how `processEvent` ends
record Marked (target id : ℕ) (Ready : BooksTables → Type 0) (rows : List OutboxRow)
    (r : Result (Failure ProcessorError) (Unit {0}) × Session ProcessorTables) : Type 0 where
  done : r.0 ≡ ok tt
  faultless : NoFaults r.1
  ready : Ready r.1.store.books
  change : OutboxRow → OutboxRow
  keeps_id : KeepsId change
  changed : r.1.store.accounting_outbox ≡ map (change_row id change) rows
  posts : id ≡ target → (row : OutboxRow) → (change row).status ≡ posted

no_entry :
    (r : Result (Failure ProcessorError) PostedJournalEntry) (e : Failure ProcessorError)
    → r ≡ err e
    → ¬ ((entry : PostedJournalEntry) × (r ≡ ok entry))
no_entry r e h (entry, k) = cc

later : (a b : Bool) → a ≡ false → a || b ≡ true → b ≡ true
later a b h k = ground arith

-- how the loop of `processPendingForSchema` ends
pub record Ended (target : ℕ) (events : List OutboxRow) (Ready : BooksTables → Type 0)
    (rows : List OutboxRow)
    (r : Result (Failure ProcessorError) (Unit {0}) × Session ProcessorTables) : Type 1 where
  pub done : r.0 ≡ ok tt
  pub faultless : NoFaults r.1
  pub ready : Ready r.1.store.books
  pub posted_all :
      any (is_row_of target) events ≡ true → All (PostedRow target) r.1.store.accounting_outbox
  pub kept :
      (P : OutboxRow → Type 0)
      → ((row : OutboxRow) → row.status ≡ posted → P row)
      → All (λ row. row.id ≡ target → P row) rows
      → All (λ row. row.id ≡ target → P row) r.1.store.accounting_outbox
  pub as_many : length r.1.store.accounting_outbox ≡ length rows

module _ (handle : OutboxRow → Action ProcessorTables ProcessorError PostedJournalEntry)
    (message : Failure ProcessorError → Code) (target : ℕ) (Own : OutboxRow → Type 0)
    (Ready : BooksTables → Type 0) (p : Posts handle target Own Ready) where
  -- the rest of `processEvent`, behind `handleEvent` and behind `markPosted`
  marked :
      OutboxRow
      → Result (Failure ProcessorError) PostedJournalEntry × Session ProcessorTables
      → Result (Failure ProcessorError) (Unit {0}) × Session ProcessorTables
  marked event r =
      elim r.0 as (λ _. Result (Failure ProcessorError) (Unit {0}) × Session ProcessorTables) [
        | ok entry ↦ mark_posted event.id entry.id r.1
        | err e ↦ (err e, r.1)
      ]

  recovered :
      ℕ
      → OutboxRow
      → Result (Failure ProcessorError) (Unit {0}) × Session ProcessorTables
      → Result (Failure ProcessorError) (Unit {0}) × Session ProcessorTables
  recovered now event r =
      elim r.0 as (λ _. Result (Failure ProcessorError) (Unit {0}) × Session ProcessorTables) [
        | ok done ↦ (ok done, r.1)
        | err e ↦ mark_failed now event (message e) r.1
      ]

  process_event-Marked :
      (now : ℕ) (event : OutboxRow) (s : Session ProcessorTables)
      → (event.id ≡ target → Own event)
      → NoFaults s
      → Ready s.store.books
      → Marked target event.id Ready s.store.accounting_outbox
          (process_event handle message now event s)
  unfolding process_event attempt ◌>>=◌ mark_posted mark_failed change_outbox marked recovered
  process_event-Marked now event s known n ready =
      go (handle event s) (p.faultless event s n) (p.same_outbox event s)
        (p.stays_ready event s ready) (λ own. p.returns event s own (known own) n ready)
    where
      go :
          (r : Result (Failure ProcessorError) PostedJournalEntry × Session ProcessorTables)
          → NoFaults r.1
          → r.1.store.accounting_outbox ≡ s.store.accounting_outbox
          → Ready r.1.store.books
          → (event.id ≡ target → (entry : PostedJournalEntry) × (r.0 ≡ ok entry))
          → Marked target event.id Ready s.store.accounting_outbox
              (recovered now event (marked event r))
      go (ok entry, x) n' same ready' returns =
          subst
            (λ z. Marked target event.id Ready s.store.accounting_outbox (recovered now event z))
            (sym (update_runs (change_outbox event.id (posted_row entry.id)) x (n' x.queries)))
            (record {
              done = refl;
              faultless = n';
              ready = ready';
              change = posted_row entry.id;
              keeps_id = λ row. refl;
              changed = ap (map (change_row event.id (posted_row entry.id))) same;
              posts = λ own row. refl;
            })
      go (err e, x) n' same ready' returns =
          subst (Marked target event.id Ready s.store.accounting_outbox)
            (sym (
              update_runs (change_outbox event.id (failed_row now event (message e))) x
                (n' x.queries)))
            (record {
              done = refl;
              faultless = n';
              ready = ready';
              change = failed_row now event (message e);
              keeps_id = λ row. refl;
              changed = ap (map (change_row event.id (failed_row now event (message e)))) same;
              posts = λ own row. absurd (no_entry (err e) e refl (returns own));
            })

  -- the rows of the event, once one event is marked
  rows_marked :
      (id : ℕ) (rows : List OutboxRow) (change : OutboxRow → OutboxRow) (P : OutboxRow → Type 0)
      → KeepsId change
      → (id ≡ target → (row : OutboxRow) → (change row).status ≡ posted)
      → ((row : OutboxRow) → row.status ≡ posted → P row)
      → All (λ row. row.id ≡ target → P row) rows
      → All (λ row. row.id ≡ target → P row) (map (change_row id change) rows)
  rows_marked id rows change P same posts of_posted h = elim (Bool-cases (id == target)) [
    | inl own ↦
        let e = (==_iff id target).0 own in
        All-mono (λ row k o. of_posted row (k o)) _
          (subst (λ n. All (PostedRow target) (map (change_row n change) rows)) (sym e)
            (all_posted target change rows (posts e)))
    | inr other ↦ others_kept target P id change rows (λ e. same_number id target e other) same h
  ]

  pub process_events-Ended :
      (now : ℕ) (events : List OutboxRow) (s : Session ProcessorTables)
      → All (λ event. event.id ≡ target → Own event) events
      → NoFaults s
      → Ready s.store.books
      → Ended target events Ready s.store.accounting_outbox
          (process_events handle message now events s)
  unfolding process_events pure ◌>>◌
  process_events-Ended now [] s known n ready = record {
    done = refl;
    faultless = n;
    ready = ready;
    posted_all = λ h. cc;
    kept = λ P of_posted h. h;
    as_many = refl;
  }
  process_events-Ended now (event ∷ events) s (first, known) n ready =
      let m = process_event-Marked now event s first n ready in
      let next = (process_event handle message now event s).1 in
      let rest = process_events-Ended now events next known m.faultless m.ready in
      let rows = s.store.accounting_outbox in
      subst (Ended target (event ∷ events) Ready rows)
        (sym (
          >>=-runs (process_event handle message now event)
            (λ _. process_events handle message now events) s tt m.done))
        (record {
          done = rest.done;
          faultless = rest.faultless;
          ready = rest.ready;
          posted_all = λ h. elim (Bool-cases (event.id == target)) [
            | inl own ↦
                rest.kept (λ row. row.status ≡ posted) (λ row k. k)
                  (subst (All (PostedRow target)) (sym m.changed) (
                    let e = (==_iff event.id target).0 own in
                    subst (λ n. All (PostedRow target) (map (change_row n m.change) rows)) (sym e)
                      (all_posted target m.change rows (m.posts e))))
            | inr other ↦ rest.posted_all (later (event.id == target) _ other h)
          ];
          kept = λ P of_posted h. rest.kept P of_posted (
              subst (All (λ row. row.id ≡ target → P row)) (sym m.changed)
                (rows_marked event.id rows m.change P m.keeps_id m.posts of_posted h));
          as_many =
              rest.as_many ∙ ap length m.changed ∙ length-map (change_row event.id m.change) rows;
        })
