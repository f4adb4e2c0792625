-- ===== src/Outbox.antt =====
-- outbox/outbox.service.ts and outbox/dispatchers/outbox-dispatcher.port.ts: what a side effect is,
-- and how it enters the outbox within the caller's transaction.
pub mod Emit
pub mod Relay
pub mod Sink
pub mod Webhook
use triage_engine.Prelude.{
  ℕ, Text, text_eq, Bool, List, ◌∷◌, ◌++◌, Option, none, some, is_some, if◌then◌else◌, find_row,
  colon,
}
use triage_engine.Json.{Json}
use triage_engine.Entities.{OutboxMessageEntity, OutboxStatus}

pub record EmitInput : Type 0 where
  pub aggregate_type : Text
  pub aggregate_id : Text
  pub event_type : Text
  pub version : Text
  pub payload : Json

-- `${aggregateType}:${aggregateId}:${eventType}:${version}`
unfoldable pub build_dedup_key : EmitInput → Text
build_dedup_key input =
    input.aggregate_type
    ++ (colon ∷ input.aggregate_id ++ (colon ∷ input.event_type ++ (colon ∷ input.version)))

abbrev pub has_dedup_key : Text → OutboxMessageEntity → Bool
has_dedup_key key r = text_eq r.dedup_key key

abbrev pub has_id : Text → OutboxMessageEntity → Bool
has_id id r = text_eq r.id id

abbrev pub new_message : (id : Text) (now : ℕ) → EmitInput → OutboxMessageEntity
new_message id now input = record {
  id = id;
  aggregate_type = input.aggregate_type;
  aggregate_id = input.aggregate_id;
  event_type = input.event_type;
  payload = input.payload;
  status = OutboxStatus.pending;
  attempts = 0;
  next_attempt_at = now;
  last_error = none;
  dedup_key = build_dedup_key input;
  created_at = now;
  dispatched_at = none;
}

-- INSERT ... ON CONFLICT (dedup_key) DO NOTHING; the id comes from gen_random_uuid(), and `none` is
-- the error on an id that the table holds already. The result is the dedup key.
unfoldable pub emit :
    (id : Text) (now : ℕ)
    → EmitInput
    → List OutboxMessageEntity
    → Option (Text × List OutboxMessageEntity)
emit id now input rows =
    if is_some (find_row (has_dedup_key (build_dedup_key input)) rows)
    then some (build_dedup_key input, rows)
    else if is_some (find_row (has_id id) rows)
    then none
    else some (build_dedup_key input, new_message id now input ∷ rows)

-- What a dispatcher is handed, and how its promise ends.
pub record DispatchMessage : Type 0 where
  pub aggregate_type : Text
  pub aggregate_id : Text
  pub event_type : Text
  pub payload : Json
  pub dedup_key : Text

pub data Dispatched : Type 0 where
  delivered : Dispatched
  rejected : (message : Text) → Dispatched
