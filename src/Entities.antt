-- ===== src/Entities.antt =====
-- The rows that Postgres holds, the queue's job data and the metrics: tickets/ticket.enums.ts,
-- tickets/entities, events/entities, events/dto, idempotency, outbox/entities, pipeline/dlq/entities,
-- pipeline/pipeline.constants.ts and the tables of migrations/1700000000000-InitialSchema.ts.
-- A uuid is its text, a timestamp the milliseconds of the database's clock, a jsonb column a
-- `Json` value or the record that its only writer stores.
use triage_engine.Prelude.{ℕ, Text, codes, text_eq, Bool, true, false, List, Option}
use triage_engine.Json.{Json, Decimal}

pub data TicketCategory : Type 0 where
  billing technical account feature_request complaint other : TicketCategory

pub data TicketPriority : Type 0 where
  low medium high urgent : TicketPriority

-- The values of the two enums.
abbrev pub category_name : TicketCategory → Text
category_name billing = codes "BILLING"
category_name technical = codes "TECHNICAL"
category_name account = codes "ACCOUNT"
category_name feature_request = codes "FEATURE_REQUEST"
category_name complaint = codes "COMPLAINT"
category_name other = codes "OTHER"

abbrev pub priority_name : TicketPriority → Text
priority_name low = codes "LOW"
priority_name medium = codes "MEDIUM"
priority_name high = codes "HIGH"
priority_name urgent = codes "URGENT"

pub data EnrichmentStatus : Type 0 where
  pending enriched degraded failed : EnrichmentStatus

pub data EnrichmentSource : Type 0 where
  ai fallback : EnrichmentSource

pub data IdempotencyStatus : Type 0 where
  pending completed failed : IdempotencyStatus

pub data OutboxStatus : Type 0 where
  pending sent failed : OutboxStatus

pub data DeadLetterStatus : Type 0 where
  pending replayed : DeadLetterStatus

-- The validated body of POST /events.
pub record CreateEventDto : Type 0 where
  pub idempotency_key : Option Text
  pub subject : Text
  pub body : Text
  pub requester_email : Option Text
  pub source : Option Text
  pub metadata : Option Json

pub record EventEntity : Type 0 where
  pub id : Text
  pub idempotency_key : Text
  pub payload : CreateEventDto
  pub source : Option Text
  pub received_at : ℕ

pub record TicketEntity : Type 0 where
  pub id : Text
  pub event_id : Text
  pub subject : Text
  pub body : Text
  pub requester_email : Option Text
  pub enrichment_status : EnrichmentStatus
  pub category : Option TicketCategory
  pub priority : Option TicketPriority
  pub summary : Option Text
  pub confidence : Option Decimal
  pub enrichment_source : Option EnrichmentSource
  pub enrichment_attempts : ℕ
  pub enriched_at : Option ℕ
  pub created_at : ℕ
  pub updated_at : ℕ

pub data IngestStatus : Type 0 where
  accepted processing replayed : IngestStatus

pub record IngestResult : Type 0 where
  pub status : IngestStatus
  pub idempotency_key : Text
  pub ticket_id : Option Text
  pub job_id : Option Text

pub record IdempotencyKeyEntity : Type 0 where
  pub id : Text
  pub idempotency_key : Text
  pub request_hash : Text
  pub status : IdempotencyStatus
  pub ticket_id : Option Text
  pub response_code : Option ℕ
  pub response_body : Option IngestResult
  pub locked_at : Option ℕ
  pub created_at : ℕ
  pub updated_at : ℕ

pub record OutboxMessageEntity : Type 0 where
  pub id : Text
  pub aggregate_type : Text
  pub aggregate_id : Text
  pub event_type : Text
  pub payload : Json
  pub status : OutboxStatus
  pub attempts : ℕ
  pub next_attempt_at : ℕ
  pub last_error : Option Text
  pub dedup_key : Text
  pub created_at : ℕ
  pub dispatched_at : Option ℕ

pub record PipelineJobData : Type 0 where
  pub idempotency_key : Text
  pub ticket_id : Text
  pub event_id : Text
  pub correlation_id : Option Text
  pub replay_of_dead_letter_id : Option Text
  pub upgrade_attempt : Option ℕ

pub record DeadLetterEntity : Type 0 where
  pub id : Text
  pub queue : Text
  pub job_id : Text
  pub idempotency_key : Text
  pub payload : PipelineJobData
  pub error_message : Text
  pub error_stack : Option Text
  pub attempts_made : ℕ
  pub status : DeadLetterStatus
  pub failed_at : ℕ
  pub replayed_at : Option ℕ
  pub created_at : ℕ

-- The database: one list of rows for each table.
pub record Db : Type 0 where
  pub events : List EventEntity
  pub tickets : List TicketEntity
  pub idempotency_keys : List IdempotencyKeyEntity
  pub outbox_messages : List OutboxMessageEntity
  pub dead_letters : List DeadLetterEntity

-- One increment of a counter of observability/metrics.service.ts, with its label.
pub data Metric : Type 0 where
  events_ingested_accepted events_ingested_duplicate events_ingested_conflict : Metric
  events_processed : Metric
  events_failed_retry events_failed_dead_letter events_failed_dead_letter_write_failed : Metric
  enrichment_ai_success enrichment_ai_failed enrichment_fallback_degraded : Metric
  outbox_dispatched outbox_failed : Metric

-- findOneBy({ id })
abbrev pub ticket_has_id : Text → TicketEntity → Bool
ticket_has_id id t = text_eq t.id id

-- `a === b` on the enums.
abbrev pub is_enriched : EnrichmentStatus → Bool
is_enriched EnrichmentStatus.enriched = true
is_enriched _ = false

abbrev pub is_degraded : EnrichmentStatus → Bool
is_degraded EnrichmentStatus.degraded = true
is_degraded _ = false

abbrev pub is_completed : IdempotencyStatus → Bool
is_completed IdempotencyStatus.completed = true
is_completed _ = false

abbrev pub is_due : OutboxStatus → Bool
is_due OutboxStatus.pending = true
is_due _ = false

abbrev pub is_unresolved : DeadLetterStatus → Bool
is_unresolved DeadLetterStatus.pending = true
is_unresolved _ = false
