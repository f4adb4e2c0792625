-- ===== src/Events/Insert.antt =====
-- events/events.service.ts: what is hashed of an event, and the transaction that makes its ticket.
-- The ids that gen_random_uuid() draws, the readings of the clock and how the last UPDATE ends come
-- with the request.
use triage_engine.Prelude.{
  ℕ, Text, text_eq, codes, Bool, ◌∷◌, Option, none, some, is_some, if◌then◌else◌, find_row,
}
use triage_engine.Json.{Json, null, str, obj, end, field}
use triage_engine.Entities.{
  ticket_has_id, CreateEventDto, EventEntity, TicketEntity, EnrichmentStatus, Db,
}
use triage_engine.Idempotency.{lock_for_update, attach_ticket}

-- How an UPDATE outside a transaction ends: it answers, it is refused and writes nothing, or it writes
-- and its answer is lost. The last two reject.
pub data Reply : Type 0 where
  answered refused lost : Reply

pub record Draws : Type 0 where
  pub key_id : Text
  pub event_id : Text
  pub ticket_id : Text
  pub claimed_at : ℕ
  pub reclaimed_at : ℕ
  pub created_at : ℕ
  pub finished_at : ℕ
  pub completing : Reply
  pub failing : Reply

abbrev or_null : Option Text → Json
or_null none = null
or_null (some s) = str s

abbrev metadata_or_null : Option Json → Json
metadata_or_null none = null
metadata_or_null (some j) = j

-- The semantic content that is hashed: not the key.
abbrev pub content_of : CreateEventDto → Json
content_of dto = obj (
    field (codes "subject") (str dto.subject) (
      field (codes "body") (str dto.body) (
        field (codes "requesterEmail") (or_null dto.requester_email) (
          field (codes "source") (or_null dto.source)
            (field (codes "metadata") (metadata_or_null dto.metadata) end)))))

abbrev pub event_has_id : Text → EventEntity → Bool
event_has_id id e = text_eq e.id id

abbrev pub event_has_key : Text → EventEntity → Bool
event_has_key key e = text_eq e.idempotency_key key

abbrev pub new_event : (key : Text) → CreateEventDto → Draws → EventEntity
new_event key dto draws = record {
  id = draws.event_id;
  idempotency_key = key;
  payload = dto;
  source = dto.source;
  received_at = draws.created_at;
}

abbrev pub new_ticket : CreateEventDto → Draws → TicketEntity
new_ticket dto draws = record {
  id = draws.ticket_id;
  event_id = draws.event_id;
  subject = dto.subject;
  body = dto.body;
  requester_email = dto.requester_email;
  enrichment_status = EnrichmentStatus.pending;
  category = none;
  priority = none;
  summary = none;
  confidence = none;
  enrichment_source = none;
  enrichment_attempts = 0;
  enriched_at = none;
  created_at = draws.created_at;
  updated_at = draws.created_at;
}

-- The two INSERTs and the UPDATE of a first run; an id that its table holds already is an error.
unfoldable pub insert_event_and_ticket :
    (key : Text) → CreateEventDto → Draws → Db → Option ((Text × Text) × Db)
insert_event_and_ticket key dto draws db =
    if is_some (find_row (event_has_id draws.event_id) db.events)
    then none
    else if is_some (find_row (ticket_has_id draws.ticket_id) db.tickets)
    then none
    else some (
      (draws.ticket_id, draws.event_id),
      record db {
        events = new_event key dto draws ∷ db.events;
        tickets = new_ticket dto draws ∷ db.tickets;
        idempotency_keys = attach_ticket key draws.ticket_id draws.created_at db.idempotency_keys;
      },
    )

-- `findOneByOrFail` on a ticket that is attached already.
unfoldable pub reuse_ticket : (ticket_id : Text) → Db → Option ((Text × Text) × Db)
reuse_ticket ticket_id db = elim (find_row (ticket_has_id ticket_id) db.tickets) [
  | none ↦ none
  | some existing ↦ some ((existing.id, existing.event_id), db)
]

-- The work of the transaction: a (ticketId, eventId) pair.
unfoldable pub create_ticket_if_absent :
    (key : Text) → CreateEventDto → Draws → Db → Option ((Text × Text) × Db)
unfolding insert_event_and_ticket reuse_ticket lock_for_update
create_ticket_if_absent key dto draws db = elim (lock_for_update key db.idempotency_keys) [
  | none ↦ none
  | some idem ↦ elim idem.ticket_id [
    | some ticket_id ↦ reuse_ticket ticket_id db
    | none ↦ insert_event_and_ticket key dto draws db
  ]
]
