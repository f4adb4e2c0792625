-- ===== src/History.antt =====
-- The service as a whole: the committed transactions and single statements of its requests, jobs,
-- relays and operators, in any order. Each step is the function that the component's module defines.
-- Retention is not among them; it has a module of its own.
pub mod Tables
pub mod Invariant
pub mod OneTicket
pub mod Effects
pub mod Reads
pub mod Notified
pub mod Promise
pub mod Kept
pub mod Settling
pub mod Refinement
use triage_engine.Prelude.{
  ℕ, Text, text_eq, Bool, ◌&&◌, List, [], ◌∷◌, Option, none, some, is_some, ◌≡◌, ◌≤◌, ◌⊎◌, inl, inr,
  find_row, count_rows, if◌then◌else◌, ◌+◌,
}
use triage_engine.Config.{EnvVars}
use triage_engine.Backoff.{Random}
use triage_engine.Entities.{
  ticket_has_id, CreateEventDto, EventEntity, TicketEntity, EnrichmentStatus, IngestResult,
  IdempotencyKeyEntity, PipelineJobData, OutboxMessageEntity, DeadLetterEntity, Db, Metric,
}
use triage_engine.Idempotency.{has_key, insert_key, reclaim, mark_completed, mark_failed}
use triage_engine.Idempotency.Claim.{HasUniqueKeys}
use triage_engine.Events.Insert.{Draws, event_has_id, event_has_key, create_ticket_if_absent}
use triage_engine.Outbox.{DispatchMessage, Dispatched}
use triage_engine.Outbox.Emit.{HasUniqueDedupKeys, HasUniqueIds}
use triage_engine.Outbox.Relay.{Drain, drain_once}
use triage_engine.Pipeline.Processor.{EnrichmentOutcome, persist_and_emit}
use triage_engine.Pipeline.Failure.{JobError}
use triage_engine.Pipeline.Dlq.{FailedJob, record_dead_letter, flip, unflip}

-- The database, and what running jobs have read: a ticket's id with its status at the time.
pub record State : Type 0 where
  pub db : Db
  pub reads : List (Text × EnrichmentStatus)

abbrev pub empty_db : Db
empty_db = record {
  events = [];
  tickets = [];
  idempotency_keys = [];
  outbox_messages = [];
  dead_letters = [];
}

-- The read is one that a running job has made.
abbrev pub HasRead : List (Text × EnrichmentStatus) → Text → EnrichmentStatus → Type 0
HasRead [] id status = ⊥
HasRead (r ∷ reads) id status = ((r.0 ≡ id) × (r.1 ≡ status)) ⊎ HasRead reads id status

-- The statuses that the bound enricher returns.
abbrev pub IsResult : EnrichmentStatus → Type 0
IsResult status = (status ≡ EnrichmentStatus.enriched) ⊎ (status ≡ EnrichmentStatus.degraded)

-- `writes_letters` stands for every statement on the dead letters: they bear on no other table.
pub data Step {S : Type 0} (dispatch : DispatchMessage → S → Dispatched × S) (env : EnvVars)
    (s u : State) : Type 0 where
  inserts_key :
      (id key request_hash : Text) (now : ℕ) (rows : List IdempotencyKeyEntity)
      → insert_key id key request_hash now s.db.idempotency_keys ≡ some rows
      → u ≡ record s { db = record (s.db) { idempotency_keys = rows } }
      → Step dispatch env s u
  reclaims :
      (key : Text) (now : ℕ)
      → u ≡ record s {
        db = record (s.db) {
          idempotency_keys = (reclaim env.idempotency_lease_ms key now s.db.idempotency_keys).0;
        };
      }
      → Step dispatch env s u
  creates :
      (key : Text) (dto : CreateEventDto) (draws : Draws) (ids : Text × Text) (db : Db)
      → create_ticket_if_absent key dto draws s.db ≡ some (ids, db)
      → u ≡ record s { db = db }
      → Step dispatch env s u
  completes :
      (key ticket_id : Text) (code : ℕ) (body : IngestResult) (now : ℕ)
      → u ≡ record s {
        db = record (s.db) {
          idempotency_keys = mark_completed key ticket_id code body now s.db.idempotency_keys;
        };
      }
      → Step dispatch env s u
  fails :
      (key : Text) (now : ℕ)
      → u ≡ record s {
        db = record (s.db) { idempotency_keys = mark_failed key now s.db.idempotency_keys };
      }
      → Step dispatch env s u
  loads :
      (id : Text) (ticket : TicketEntity)
      → find_row (ticket_has_id id) s.db.tickets ≡ some ticket
      → u ≡ record s { reads = (id, ticket.enrichment_status) ∷ s.reads }
      → Step dispatch env s u
  persists :
      (message_id : Text) (now : ℕ) (id : Text) (prior : EnrichmentStatus)
      (outcome : EnrichmentOutcome) (job : PipelineJobData) (db : Db)
      → HasRead s.reads id prior
      → IsResult outcome.status
      → persist_and_emit message_id now id prior outcome job s.db ≡ some (tt, db)
      → u ≡ record s { db = db }
      → Step dispatch env s u
  drains :
      (now : ℕ) (random : OutboxMessageEntity → Random) (locked : Text → Bool) (outside : S)
      (metrics : List Metric)
      → u ≡ record s {
        db = record (s.db) {
          outbox_messages =
              (drain_once dispatch env now random locked (record {
                rows = s.db.outbox_messages;
                outside = outside;
                metrics = metrics;
              })).1.rows;
        };
      }
      → Step dispatch env s u
  writes_letters :
      (letters : List DeadLetterEntity)
      → u ≡ record s { db = record (s.db) { dead_letters = letters } }
      → Step dispatch env s u

pub data Run {S : Type 0} (dispatch : DispatchMessage → S → Dispatched × S) (env : EnvVars)
    (s : State) : State → Type 0 where
  here : Run dispatch env s s
  then_step : {t u : State} → Run dispatch env s t → Step dispatch env t u → Run dispatch env s u

abbrev pub is_attached : (key : Text) → IdempotencyKeyEntity → Bool
is_attached key r = has_key key r && is_some r.ticket_id

abbrev pub is_ticket_of : (event_id : Text) → TicketEntity → Bool
is_ticket_of event_id t = text_eq t.event_id event_id

-- The tickets that stem from events under a key.
pub tickets_for : (key : Text) → List EventEntity → List TicketEntity → ℕ
tickets_for key [] tickets = 0
tickets_for key (e ∷ events) tickets =
    (if event_has_key key e then count_rows (is_ticket_of e.id) tickets else 0)
    + tickets_for key events tickets

-- What the constraints of the schema and the order of the writes keep.
pub record IsConsistent (db : Db) : Type 0 where
  pub keys : HasUniqueKeys db.idempotency_keys
  pub attached :
      (key : Text)
      → count_rows (event_has_key key) db.events ≤ count_rows (is_attached key) db.idempotency_keys
  pub events : (id : Text) → count_rows (event_has_id id) db.events ≤ 1
  pub tickets : (id : Text) → count_rows (ticket_has_id id) db.tickets ≤ 1
  pub owned :
      (id : Text) → count_rows (is_ticket_of id) db.tickets ≤ count_rows (event_has_id id) db.events
  pub effects : HasUniqueDedupKeys db.outbox_messages
  pub messages : HasUniqueIds db.outbox_messages
