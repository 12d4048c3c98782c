-- ===== src/Payments/Outbox.antt =====
-- src/accounting/accounting-outbox.service.ts: events that the accounting posts later, one row for each
-- event and aggregate.
use gestion_alquileres_backe.Prelude.{ℕ, List, Bool, ◌==◌, ◌∷◌, ◌&&◌, if◌then◌else◌, []}

pub data EventType : Type 0 where
  payment_approved payment_refund_created : EventType

pub data OutboxStatus : Type 0 where
  pending processing posted failed : OutboxStatus

-- a row of accounting_outbox; the payload is the rest of what the event names
pub record OutboxEvent : Type 0 where
  pub event_type : EventType
  pub aggregate_id : ℕ
  pub payload : List ℕ
  pub status : OutboxStatus
  pub attempts : ℕ

abbrev event_index : EventType → ℕ
event_index payment_approved = 0
event_index payment_refund_created = 1

-- the key (event_type, aggregate_type, aggregate_id); the event determines the aggregate's type
abbrev is_same_event : EventType → ℕ → OutboxEvent → Bool
is_same_event event id row =
    event_index row.event_type == event_index event && row.aggregate_id == id

-- `CASE WHEN status = 'posted' THEN status ELSE 'pending' END`
abbrev queued : OutboxStatus → OutboxStatus
queued posted = posted
queued _ = pending

-- `INSERT … ON CONFLICT DO UPDATE`: a posted event stays posted
unfoldable pub enqueue : EventType → ℕ → List ℕ → List OutboxEvent → List OutboxEvent
enqueue event id payload [] =
    record {
      event_type = event;
      aggregate_id = id;
      payload = payload;
      status = pending;
      attempts = 0;
    }
    ∷ []
enqueue event id payload (row ∷ rows) =
    if is_same_event event id row
    then record row { payload = payload; status = queued row.status } ∷ rows
    else row ∷ enqueue event id payload rows
