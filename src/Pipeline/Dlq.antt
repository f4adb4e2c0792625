-- ===== src/Pipeline/Dlq.antt =====
-- pipeline/dlq/dlq.service.ts and dlq.controller.ts: the dead letters, and their replay.
pub mod Laws
pub mod Letters
use triage_engine.Prelude.{
  ℕ, ◌≤◌, min, Text, text_eq, Bool, true, false, not, ◌&&◌, ◌||◌, List, [], ◌∷◌, Option, none, some,
  ltb, leb, take, drop, is_some, if◌then◌else◌, find_row, count_rows, select_rows, update_rows,
}
use triage_engine.Config.{EnvVars}
use triage_engine.Entities.{
  DeadLetterEntity, DeadLetterStatus, pending, replayed, is_unresolved, PipelineJobData, Db, Metric,
  events_failed_dead_letter,
}
use triage_engine.Queue.{QueueOps}
use triage_engine.Pipeline.{World, Outcome, ok, conflict, not_found, threw}
use triage_engine.Pipeline.Producer.{enqueue_replay}
use triage_engine.Pipeline.Failure.{JobError}

-- The parts of a BullMQ job that the service reads.
pub record FailedJob : Type 0 where
  pub queue_name : Text
  pub id : Text
  pub payload : PipelineJobData
  pub attempts_made : ℕ

abbrev pub letter_has_id : Text → DeadLetterEntity → Bool
letter_has_id id r = text_eq r.id id

abbrev pub new_dead_letter : (id : Text) (now : ℕ) → FailedJob → JobError → DeadLetterEntity
new_dead_letter id now job error = record {
  id = id;
  queue = job.queue_name;
  job_id = job.id;
  idempotency_key = job.payload.idempotency_key;
  payload = job.payload;
  error_message = take 2000 error.message;
  error_stack = error.stack;
  attempts_made = job.attempts_made;
  status = pending;
  failed_at = now;
  replayed_at = none;
  created_at = now;
}

-- The INSERT fails on an id that is taken, and where Postgres cannot be reached.
unfoldable pub record_dead_letter :
    (reachable : Bool) (id : Text) (now : ℕ)
    → FailedJob
    → JobError
    → List DeadLetterEntity × List Metric
    → Option (List DeadLetterEntity × List Metric)
record_dead_letter reachable id now job error (rows, metrics) =
    if not reachable || is_some (find_row (letter_has_id id) rows)
    then none
    else some (new_dead_letter id now job error ∷ rows, events_failed_dead_letter ∷ metrics)

unfoldable pub get_by_id : (id : Text) → List DeadLetterEntity → Outcome DeadLetterEntity
get_by_id id rows = elim (find_row (letter_has_id id) rows) [ none ↦ not_found | some r ↦ ok r ]

-- ORDER BY failed_at DESC
unfoldable pub insert_by_failure : DeadLetterEntity → List DeadLetterEntity → List DeadLetterEntity
insert_by_failure r [] = r ∷ []
insert_by_failure r (s ∷ rows) =
    if leb s.failed_at r.failed_at then r ∷ s ∷ rows else s ∷ insert_by_failure r rows

unfoldable pub order_by_failure : List DeadLetterEntity → List DeadLetterEntity
unfolding insert_by_failure
order_by_failure [] = []
order_by_failure (r ∷ rows) = insert_by_failure r (order_by_failure rows)

abbrev same_status : DeadLetterStatus → DeadLetterStatus → Bool
same_status pending pending = true
same_status replayed replayed = true
same_status _ _ = false

abbrev pub has_status : Option DeadLetterStatus → DeadLetterEntity → Bool
has_status none r = true
has_status (some s) r = same_status s r.status

-- GET /dlq?status=&limit=&offset=, the limit capped by the controller.
unfoldable pub list_letters :
    (status : Option DeadLetterStatus) (limit offset : ℕ)
    → List DeadLetterEntity
    → List DeadLetterEntity
unfolding order_by_failure
list_letters status limit offset rows =
    take (min limit 200) (drop offset (order_by_failure (select_rows (has_status status) rows)))

-- The conditional UPDATE ... RETURNING *: the table, and the row that it flipped, if any.
abbrev pub is_replayable : (id : Text) → DeadLetterEntity → Bool
is_replayable id r = letter_has_id id r && is_unresolved r.status

unfoldable pub flip :
    (id : Text) (now : ℕ) → List DeadLetterEntity → Option DeadLetterEntity × List DeadLetterEntity
flip id now rows = (
  find_row (is_replayable id) rows,
  update_rows (is_replayable id) (λ r. record r { status = replayed; replayed_at = some now }) rows,
)

unfoldable pub unflip : (id : Text) → List DeadLetterEntity → List DeadLetterEntity
unflip id = update_rows (letter_has_id id) (λ r. record r { status = pending; replayed_at = none })

pub record Replayed : Type 0 where
  pub dead_letter_id : Text
  pub job_id : Text

abbrev with_letters : {R : Type 0} → World R → List DeadLetterEntity → World R
with_letters w rows = record w { db = record (w.db) { dead_letters = rows } }

module _ {R : Type 0} (q : QueueOps R) (env : EnvVars) where
  -- A rejected enqueue undoes the flip.
  unfoldable pub after_replay :
      (id : Text) (answer : Option Text) → World R → Outcome Replayed × World R
  after_replay id none w = (threw, with_letters w (unflip id w.db.dead_letters))
  after_replay id (some job_id) w = (ok (record { dead_letter_id = id; job_id = job_id }), w)

  unfoldable pub replay : (id : Text) (now : ℕ) → World R → Outcome Replayed × World R
  unfolding flip after_replay enqueue_replay
  replay id now w =
      let flipped = flip id now w.db.dead_letters in
      elim flipped.0 [
        | none ↦
            (if is_some (find_row (letter_has_id id) w.db.dead_letters)
              then (conflict, w)
              else (not_found, w))
        | some row ↦
            let added = enqueue_replay q env row.payload id w.redis in
            after_replay id added.0 (record (with_letters w flipped.1) { redis = added.1 })
      ]

unfoldable pub pending_count : List DeadLetterEntity → ℕ
pending_count rows = count_rows (λ r. is_unresolved r.status) rows
