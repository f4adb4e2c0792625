-- ===== src/Http/Views.antt =====
-- What tickets/tickets.controller.ts and pipeline/dlq/dlq.controller.ts answer by.
use triage_engine.Prelude.{ℕ, Text, List, Option, none, some, length, map, find_row}
use triage_engine.Json.{Decimal}
use triage_engine.Entities.{
  TicketEntity, TicketCategory, TicketPriority, EnrichmentStatus, EnrichmentSource, ticket_has_id,
  DeadLetterEntity, DeadLetterStatus, PipelineJobData,
}
use triage_engine.Pipeline.{Outcome, ok, not_found}
use triage_engine.Pipeline.Dlq.{list_letters, letter_has_id}

pub record EnrichmentView : Type 0 where
  pub status : EnrichmentStatus
  pub source : Option EnrichmentSource
  pub category : Option TicketCategory
  pub priority : Option TicketPriority
  pub summary : Option Text
  pub confidence : Option Decimal
  pub attempts : ℕ
  pub enriched_at : Option ℕ

-- The event's id is left out.
pub record TicketView : Type 0 where
  pub id : Text
  pub subject : Text
  pub body : Text
  pub requester_email : Option Text
  pub enrichment : EnrichmentView
  pub created_at : ℕ
  pub updated_at : ℕ

abbrev pub ticket_view : TicketEntity → TicketView
ticket_view t = record {
  id = t.id;
  subject = t.subject;
  body = t.body;
  requester_email = t.requester_email;
  enrichment = record {
    status = t.enrichment_status;
    source = t.enrichment_source;
    category = t.category;
    priority = t.priority;
    summary = t.summary;
    confidence = t.confidence;
    attempts = t.enrichment_attempts;
    enriched_at = t.enriched_at;
  };
  created_at = t.created_at;
  updated_at = t.updated_at;
}

-- GET /tickets/:id
unfoldable pub get_ticket : (id : Text) → List TicketEntity → Outcome TicketView
get_ticket id tickets = elim (find_row (ticket_has_id id) tickets) [
  | none ↦ not_found
  | some t ↦ ok (ticket_view t)
]

pub record DeadLetterView : Type 0 where
  pub id : Text
  pub queue : Text
  pub job_id : Text
  pub idempotency_key : Text
  pub status : DeadLetterStatus
  pub attempts_made : ℕ
  pub error_message : Text
  pub error_stack : Option Text
  pub payload : PipelineJobData
  pub failed_at : ℕ
  pub replayed_at : Option ℕ
  pub created_at : ℕ

abbrev pub letter_view : DeadLetterEntity → DeadLetterView
letter_view r = record {
  id = r.id;
  queue = r.queue;
  job_id = r.job_id;
  idempotency_key = r.idempotency_key;
  status = r.status;
  attempts_made = r.attempts_made;
  error_message = r.error_message;
  error_stack = r.error_stack;
  payload = r.payload;
  failed_at = r.failed_at;
  replayed_at = r.replayed_at;
  created_at = r.created_at;
}

-- GET /dlq: the number of the rows of the page, and their views.
unfoldable pub list_view :
    (status : Option DeadLetterStatus) (limit offset : ℕ)
    → List DeadLetterEntity
    → ℕ × List DeadLetterView
unfolding list_letters
list_view status limit offset letters =
    let rows = list_letters status limit offset letters in (length rows, map letter_view rows)

-- GET /dlq/:id
unfoldable pub get_letter : (id : Text) → List DeadLetterEntity → Outcome DeadLetterView
get_letter id letters = elim (find_row (letter_has_id id) letters) [
  | none ↦ not_found
  | some r ↦ ok (letter_view r)
]
