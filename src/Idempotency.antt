-- ===== src/Idempotency.antt =====
-- idempotency/idempotency.service.ts: the state machine of an idempotency key. Each function is one
-- SQL statement on the table, at the time that the database reads its clock; `claim` composes them.
-- TypeORM sets `updated_at` in the updates that do not name it.
pub mod Claim
pub mod Race
use triage_engine.Prelude.{
  ℕ, ◌+◌, Text, text_eq, Bool, true, false, not, ◌&&◌, List, ◌∷◌, Option, none, some, ltb, is_some,
  if◌then◌else◌, find_row, count_rows, update_rows,
}
use triage_engine.Entities.{IdempotencyKeyEntity, IdempotencyStatus, is_completed, IngestResult}

pub data ClaimResult : Type 0 where
  is_new : ClaimResult
  replay in_flight conflict : IdempotencyKeyEntity → ClaimResult

abbrev pub has_key : Text → IdempotencyKeyEntity → Bool
has_key key r = text_eq r.idempotency_key key

abbrev pub new_key : (id key request_hash : Text) (now : ℕ) → IdempotencyKeyEntity
new_key id key request_hash now = record {
  id = id;
  idempotency_key = key;
  request_hash = request_hash;
  status = IdempotencyStatus.pending;
  ticket_id = none;
  response_code = none;
  response_body = none;
  locked_at = some now;
  created_at = now;
  updated_at = now;
}

-- INSERT ... ON CONFLICT DO NOTHING RETURNING id: `none` when no row comes back.
unfoldable pub insert_key :
    (id key request_hash : Text) (now : ℕ)
    → List IdempotencyKeyEntity
    → Option (List IdempotencyKeyEntity)
insert_key id key request_hash now rows =
    if is_some (find_row (has_key key) rows)
    then none
    else some (new_key id key request_hash now ∷ rows)

-- locked_at IS NULL OR locked_at < now() - lease
abbrev pub is_stale : (lease now : ℕ) → Option ℕ → Bool
is_stale lease now none = true
is_stale lease now (some t) = ltb (t + lease) now

abbrev pub status_reclaimable : (stale : Bool) → IdempotencyStatus → Bool
status_reclaimable stale IdempotencyStatus.pending = stale
status_reclaimable stale IdempotencyStatus.completed = false
status_reclaimable stale IdempotencyStatus.failed = true

abbrev pub is_reclaimable : (lease now : ℕ) → IdempotencyKeyEntity → Bool
is_reclaimable lease now r = status_reclaimable (is_stale lease now r.locked_at) r.status

-- The conditional UPDATE, and the count of the rows that it affected.
unfoldable pub reclaim :
    (lease : ℕ) (key : Text) (now : ℕ) → List IdempotencyKeyEntity → List IdempotencyKeyEntity × ℕ
reclaim lease key now rows = (
  update_rows (λ r. has_key key r && is_reclaimable lease now r)
      (λ r. record r { status = IdempotencyStatus.pending; locked_at = some now; updated_at = now })
      rows,
  count_rows (λ r. has_key key r && is_reclaimable lease now r) rows,
)

-- The outcomes that the row read after a lost insert decides with no further statement.
unfoldable pub settled : (request_hash : Text) → IdempotencyKeyEntity → Option ClaimResult
settled request_hash existing =
    if not (text_eq existing.request_hash request_hash)
    then some (conflict existing)
    else if is_completed existing.status
    then some (replay existing)
    else none

-- The answer after the reclaiming UPDATE.
unfoldable pub reclaimed : ℕ → IdempotencyKeyEntity → ClaimResult
reclaimed affected existing = if ltb 0 affected then is_new else in_flight existing

-- A claim with no other statement between its own, the last of them at `later`. `none` is the error
-- of `findOneByOrFail`.
unfoldable pub claim :
    (lease : ℕ) (id key request_hash : Text) (now later : ℕ)
    → List IdempotencyKeyEntity
    → Option (ClaimResult × List IdempotencyKeyEntity)
unfolding insert_key reclaim settled reclaimed
claim lease id key request_hash now later rows = elim (insert_key id key request_hash now rows) [
  | some rows' ↦ some (is_new, rows')
  | none ↦ elim (find_row (has_key key) rows) [
    | none ↦ none
    | some existing ↦ elim (settled request_hash existing) [
      | some result ↦ some (result, rows)
      | none ↦
          some
            (reclaimed (reclaim lease key later rows).1 existing, (reclaim lease key later rows).0)
    ]
  ]
]

-- SELECT ... FOR UPDATE inside the caller's transaction; `none` is "idempotency row vanished".
unfoldable pub lock_for_update : Text → List IdempotencyKeyEntity → Option IdempotencyKeyEntity
lock_for_update key rows = find_row (has_key key) rows

unfoldable pub attach_ticket :
    (key ticket_id : Text) (now : ℕ) → List IdempotencyKeyEntity → List IdempotencyKeyEntity
attach_ticket key ticket_id now =
    update_rows (has_key key) (λ r. record r { ticket_id = some ticket_id; updated_at = now })

unfoldable pub mark_completed :
    (key ticket_id : Text) (response_code : ℕ) (response_body : IngestResult) (now : ℕ)
    → List IdempotencyKeyEntity
    → List IdempotencyKeyEntity
mark_completed key ticket_id response_code response_body now = update_rows (has_key key) λ r.
    record r {
      status = IdempotencyStatus.completed;
      ticket_id = some ticket_id;
      response_code = some response_code;
      response_body = some response_body;
      locked_at = none;
      updated_at = now;
    }

unfoldable pub mark_failed :
    (key : Text) (now : ℕ) → List IdempotencyKeyEntity → List IdempotencyKeyEntity
mark_failed key now =
    update_rows (has_key key)
      λ r. record r { status = IdempotencyStatus.failed; locked_at = none; updated_at = now }
