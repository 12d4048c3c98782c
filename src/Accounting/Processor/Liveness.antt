-- ===== src/Accounting/Processor/Liveness.antt =====
-- Minute by minute, the events of src/accounting/accounting-outbox.processor.ts get posted.
use Prim.Native.Nat.{zero}
use mathlib.Core.Option.{none}
use mathlib.Core.Path.{subst}
use gestion_alquileres_backe.Payments.Outbox.{posted}
use gestion_alquileres_backe.Accounting.Processor.Rows.{
  WaitingRow, PostedRow, IsIdle, length-claim_due, claim_cases, claim_keeps_posted, KnownRow,
  claimed_own,
}
use gestion_alquileres_backe.Transaction.Rules.{NoFaults, query_runs, >>=-runs}
use gestion_alquileres_backe.Accounting.Processor.Settled.{Posts, process_events-Ended}
use gestion_alquileres_backe.Accounting.Books.{BooksTables}
use gestion_alquileres_backe.Money.Currency.{Code}
use gestion_alquileres_backe.Accounting.Tables.{PostedJournalEntry}
use gestion_alquileres_backe.Transaction.{Session, Action, Failure, ◌>>◌, pure, query}
use gestion_alquileres_backe.Accounting.Processor.{
  OutboxRow, ProcessorTables, ProcessorError, claim, process_pending_for_schema, process_events,
  process_claimed, claim_due, is_queued, process_minutes, retry_minutes, is_reached, is_due,
  failed_row,
}
use gestion_alquileres_backe.Prelude.{
  ℕ, suc, length, ◌≡◌, All, ap, ◌⊎◌, ◌∙◌, ◌≤◌, inl, inr, sym, Option, Bool, true, ◌+◌, some, ◌&&◌,
  arith, All-mono, none, ◌≢◌, zero, false, refl, List,
}

-- the session behind the claim
abbrev claimed_session : ℕ → ℕ → Session ProcessorTables → Session ProcessorTables
claimed_session now limit s = record s {
  queries = suc s.queries;
  store = (claim now limit s.store).1;
}

reached_later :
    (deadline now : ℕ) (moment : Option ℕ)
    → deadline ≤ now
    → is_reached deadline moment ≡ true
    → is_reached now moment ≡ true
reached_later deadline now none late h = refl
reached_later deadline now (some moment) late h = ground arith

due_now : (a b : Bool) → a ≡ true → b ≡ true → a && b ≢ false
due_now a b p q h = ground (arith, p, q, h)

module _ (handle : OutboxRow → Action ProcessorTables ProcessorError PostedJournalEntry)
    (message : Failure ProcessorError → Code) (target : ℕ) (Own : OutboxRow → Type 0)
    (Ready : BooksTables → Type 0) (p : Posts handle target Own Ready) where
  -- A run is its claim and then its loop.
  run_session :
      (now limit : ℕ) (s : Session ProcessorTables)
      → All (KnownRow target Own) s.store.accounting_outbox
      → NoFaults s
      → Ready s.store.books
      → (process_pending_for_schema handle message now limit s).1
        ≡ (process_events handle message now
            (claim now limit s.store).0
            (claimed_session now limit s)).1
  unfolding process_pending_for_schema process_claimed claim ◌>>◌ pure
  run_session now limit s known n ready =
      let first = query_runs (claim now limit) s (n s.queries) in
      let events = (claim now limit s.store).0 in
      let next = claimed_session now limit s in
      let rest = process_claimed handle message now in
      let own = claimed_own target Own now limit s.store.accounting_outbox p.claimed_same known in
      let loop =
        process_events-Ended handle message target Own Ready p now events next own n ready in
      ap (λ r. r.1) (>>=-runs (query (claim now limit)) rest s events (ap (λ r. r.0) first))
      ∙ ap (λ r. (rest events r.1).1) first
      ∙ ap (λ r. r.1)
          (>>=-runs (process_events handle message now events) (λ _. pure (length events)) next tt
            loop.done)

  -- what a minute leaves
  record Run (now deadline : ℕ) (s r : Session ProcessorTables) : Type 0 where
    faultless : NoFaults r
    ready : Ready r.store.books
    as_many : length r.store.accounting_outbox ≡ length s.store.accounting_outbox
    settled :
        All (WaitingRow target Own deadline) s.store.accounting_outbox
        → All (PostedRow target) r.store.accounting_outbox
          ⊎ All (λ row. row.id ≡ target → IsIdle Own now deadline row) r.store.accounting_outbox
    stays :
        All (PostedRow target) s.store.accounting_outbox
        → All (PostedRow target) r.store.accounting_outbox

  minute-Run :
      (now deadline limit : ℕ) (s : Session ProcessorTables)
      → NoFaults s
      → Ready s.store.books
      → length s.store.accounting_outbox ≤ limit
      → All (KnownRow target Own) s.store.accounting_outbox
      → Run now deadline s (process_pending_for_schema handle message now limit s).1
  unfolding claim
  minute-Run now deadline limit s n ready room known =
      let rows = s.store.accounting_outbox in
      let events = (claim_due now limit rows).0 in
      let next = claimed_session now limit s in
      let own = claimed_own target Own now limit s.store.accounting_outbox p.claimed_same known in
      let loop =
        process_events-Ended handle message target Own Ready p now events next own n ready in
      subst (Run now deadline s) (sym (run_session now limit s known n ready)) (record {
        faultless = loop.faultless;
        ready = loop.ready;
        as_many = loop.as_many ∙ length-claim_due now limit rows;
        settled = λ w. elim (claim_cases target Own now limit deadline rows room w) [
          | inl taken ↦ inl (loop.posted_all taken)
          | inr idle ↦ inr (loop.kept (IsIdle Own now deadline) (λ row h. inl h) idle)
        ];
        stays = λ h.
            loop.kept (λ row. row.status ≡ posted) (λ row k. k)
              (claim_keeps_posted target now limit rows h);
      })

  -- at the deadline an idle row is posted
  idle_posted :
      (now deadline : ℕ) (row : OutboxRow)
      → deadline ≤ now
      → IsIdle Own now deadline row
      → row.status ≡ posted
  idle_posted now deadline row late (inl done) = done
  idle_posted now deadline row late (inr (q, r, d, o)) =
      absurd
        (due_now (is_queued row.status) _ q (reached_later deadline now row.next_retry_at late r) d)

  idle_waits :
      (now deadline : ℕ) (row : OutboxRow)
      → (row.id ≡ target → IsIdle Own now deadline row)
      → WaitingRow target Own deadline row
  idle_waits now deadline row h own = elim (h own) [
    | inl done ↦ inl done
    | inr q ↦ inr (q.0, q.1, q.3)
  ]

  posted_known :
      (rows : List OutboxRow) → All (PostedRow target) rows → All (KnownRow target Own) rows
  posted_known rows h = All-mono (λ row k own. inl (k own)) rows h

  waiting_known :
      (deadline : ℕ) (rows : List OutboxRow)
      → All (WaitingRow target Own deadline) rows
      → All (KnownRow target Own) rows
  waiting_known deadline rows h = All-mono (λ row k own. known row (k own)) rows h
    where
      known :
          (row : OutboxRow)
          → (row.status ≡ posted)
            ⊎ ((is_queued row.status ≡ true)
                × (is_reached deadline row.next_retry_at ≡ true)
                × Own row)
          → (row.status ≡ posted) ⊎ Own row
      known row (inl done) = inl done
      known row (inr q) = inr q.2

  -- posted is posted
  posted_stays :
      (now minutes : ℕ) (s : Session ProcessorTables)
      → NoFaults s
      → Ready s.store.books
      → length s.store.accounting_outbox ≤ 25
      → All (PostedRow target) s.store.accounting_outbox
      → All
          (PostedRow target)
          (process_minutes handle message now minutes s).store.accounting_outbox
  unfolding process_minutes
  posted_stays now zero s n ready room h = h
  posted_stays now (suc minutes) s n ready room h =
      let r = minute-Run now now 25 s n ready room (posted_known _ h) in
      posted_stays (now + 1) minutes _ r.faultless r.ready (omega (arith, r.as_many)) (r.stays h)

  -- An event that waits, at the latest until the minute `deadline`, is posted once the processor has run
  -- every minute up to that one, in an outbox of at most 25 rows, which is what a run takes, when no
  -- query fails and its posting is as `Posts` asks.
  pub eventually_posted :
      (now minutes deadline : ℕ) (s : Session ProcessorTables)
      → NoFaults s
      → Ready s.store.books
      → length s.store.accounting_outbox ≤ 25
      → All (WaitingRow target Own deadline) s.store.accounting_outbox
      → deadline ≤ now + minutes
      → All
          (PostedRow target)
          (process_minutes handle message now (suc minutes) s).store.accounting_outbox
  unfolding process_minutes
  eventually_posted now zero deadline s n ready room w late =
      let r = minute-Run now deadline 25 s n ready room (waiting_known deadline _ w) in
      elim (r.settled w) [
        | inl done ↦ done
        | inr idle ↦
            All-mono (λ row h own. idle_posted now deadline row (omega arith) (h own)) _ idle
      ]
  eventually_posted now (suc minutes) deadline s n ready room w late =
      let r = minute-Run now deadline 25 s n ready room (waiting_known deadline _ w) in
      elim (r.settled w) [
        | inl done ↦
            posted_stays (now + 1) (suc minutes) _ r.faultless r.ready (omega (arith, r.as_many))
              done
        | inr idle ↦
            eventually_posted (now + 1) minutes deadline _ r.faultless r.ready
              (omega (arith, r.as_many)) (All-mono (λ row h. idle_waits now deadline row h) _ idle)
              (omega arith)
      ]

retry_minutes-bounds : (attempts : ℕ) → (1 ≤ retry_minutes attempts) × (retry_minutes attempts ≤ 60)
unfolding retry_minutes
retry_minutes-bounds attempts = omega arith

-- A failed event is not due in the minute that failed it, and is due again an hour later at the latest,
-- however often it was tried.
pub failed_row_due_again :
    (now : ℕ) (event row : OutboxRow) (message : Code)
    → (is_due now (failed_row now event message row) ≡ false)
      × (is_due (now + 60) (failed_row now event message row) ≡ true)
failed_row_due_again now event row message =
    let b = retry_minutes-bounds event.attempts in ground (arith, b)
