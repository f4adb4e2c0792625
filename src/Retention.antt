-- ===== src/Retention.antt =====
-- retention/retention.sweeper.ts: the deletes of one sweep, in one transaction. A row is expired if its
-- timestamp is before now() - age.
pub mod Laws
use triage_engine.Prelude.{
  ℕ, ◌+◌, Text, text_eq, Bool, true, false, not, ◌&&◌, ◌||◌, ◌==◌, List, [], ◌∷◌, Option, none,
  some, ltb, if◌then◌else◌, count_rows, delete_rows,
}
use triage_engine.Config.{EnvVars}
use triage_engine.Entities.{
  Db, EventEntity, TicketEntity, EnrichmentStatus, IdempotencyKeyEntity, OutboxMessageEntity,
  DeadLetterEntity, is_due, is_unresolved, is_completed,
}

abbrev pub is_expired : (age now time : ℕ) → Bool
is_expired age now time = ltb (time + age) now

-- enrichment_status IN ('ENRICHED', 'FAILED')
abbrev pub is_terminal : EnrichmentStatus → Bool
is_terminal EnrichmentStatus.enriched = true
is_terminal EnrichmentStatus.failed = true
is_terminal EnrichmentStatus.pending = false
is_terminal EnrichmentStatus.degraded = false

abbrev pub old_message : (age now : ℕ) → OutboxMessageEntity → Bool
old_message age now r = not (is_due r.status) && is_expired age now r.created_at

abbrev pub old_letter : (age now : ℕ) → DeadLetterEntity → Bool
old_letter age now r = not (is_unresolved r.status) && is_expired age now r.created_at

abbrev pub old_key : (age now : ℕ) → IdempotencyKeyEntity → Bool
old_key age now r = is_completed r.status && is_expired age now r.created_at

-- k.ticket_id = t.id; a NULL is equal to nothing.
abbrev pub points_at : (ticket_id : Text) → Option Text → Bool
points_at ticket_id none = false
points_at ticket_id (some id) = text_eq id ticket_id

abbrev pub old_ticket : (age now : ℕ) → List IdempotencyKeyEntity → TicketEntity → Bool
old_ticket age now keys t =
    is_terminal t.enrichment_status
    && is_expired age now t.updated_at
    && (count_rows (λ k. points_at t.id k.ticket_id) keys == 0)

abbrev pub old_event : (age now : ℕ) → List TicketEntity → EventEntity → Bool
old_event age now tickets e =
    is_expired age now e.received_at && (count_rows (λ t. text_eq t.event_id e.id) tickets == 0)

-- How many rows of each table a sweep deleted.
pub record Pruned : Type 0 where
  pub outbox_messages : ℕ
  pub dead_letters : ℕ
  pub idempotency_keys : ℕ
  pub tickets : ℕ
  pub events : ℕ

-- The work of the transaction. Tickets go after the keys, and events after the tickets.
unfoldable pub prune : EnvVars → (now : ℕ) → Db → Pruned × Db
prune env now db =
    let age = env.retention_max_age_ms in
    let keys = delete_rows (old_key age now) db.idempotency_keys in
    let tickets = delete_rows (old_ticket age now keys) db.tickets in
    (
      record {
        outbox_messages = count_rows (old_message age now) db.outbox_messages;
        dead_letters = count_rows (old_letter age now) db.dead_letters;
        idempotency_keys = count_rows (old_key age now) db.idempotency_keys;
        tickets = count_rows (old_ticket age now keys) db.tickets;
        events = count_rows (old_event age now tickets) db.events;
      },
      record {
        events = delete_rows (old_event age now tickets) db.events;
        tickets = tickets;
        idempotency_keys = keys;
        outbox_messages = delete_rows (old_message age now) db.outbox_messages;
        dead_letters = delete_rows (old_letter age now) db.dead_letters;
      },
    )

-- The flags of the sweeper.
pub record Sweeper : Type 0 where
  pub stopped : Bool
  pub running : Bool

-- `none` is the empty answer: of a sweep that is skipped, and of one whose transaction fails.
unfoldable pub sweep : EnvVars → (reachable : Bool) (now : ℕ) → Sweeper → Db → Option Pruned × Db
unfolding prune
sweep env reachable now s db =
    if s.stopped || s.running || not reachable
    then (none, db)
    else (some (prune env now db).0, (prune env now db).1)
