-- ===== src/Outbox/Relay.antt =====
-- outbox/outbox.relay.ts: the poll, the dispatch of a batch inside one transaction, and the timer.
-- The dispatcher is the port's: a function on the state `S` of the world that it delivers to.
-- now() is the start of the transaction. `random` draws one jitter for each row.
pub mod Claim
pub mod Fair
pub mod Batch
pub mod Retry
pub mod Polls
use triage_engine.Prelude.{
  ℕ, ◌+◌, ◌≤◌, Text, text_eq, codes, Bool, true, false, not, ◌&&◌, ◌||◌, List, [], ◌∷◌, ◌++◌,
  Option, none, some, leb, length, take, if◌then◌else◌, select_rows, update_rows, suc,
}
use triage_engine.Config.{EnvVars}
use triage_engine.Backoff.{Random, backoff_with_jitter}
use triage_engine.Entities.{
  OutboxMessageEntity, OutboxStatus, is_due, Metric, outbox_dispatched, outbox_failed,
}
use triage_engine.Outbox.{DispatchMessage, Dispatched, delivered, rejected, has_id}

-- ORDER BY next_attempt_at ASC
unfoldable pub insert_by_time :
    OutboxMessageEntity → List OutboxMessageEntity → List OutboxMessageEntity
insert_by_time r [] = r ∷ []
insert_by_time r (s ∷ rows) =
    if leb r.next_attempt_at s.next_attempt_at then r ∷ s ∷ rows else s ∷ insert_by_time r rows

unfoldable pub order_by_time : List OutboxMessageEntity → List OutboxMessageEntity
unfolding insert_by_time
order_by_time [] = []
order_by_time (r ∷ rows) = insert_by_time r (order_by_time rows)

-- status = 'PENDING' AND next_attempt_at <= now(), stepping over the rows that others have locked.
abbrev pub is_claimable : (locked : Text → Bool) (now : ℕ) → OutboxMessageEntity → Bool
is_claimable locked now r = is_due r.status && leb r.next_attempt_at now && not (locked r.id)

unfoldable pub claim_batch :
    (locked : Text → Bool) (now limit : ℕ) → List OutboxMessageEntity → List OutboxMessageEntity
claim_batch locked now limit rows =
    take limit (order_by_time (select_rows (is_claimable locked now) rows))

abbrev pub message_of : OutboxMessageEntity → DispatchMessage
message_of row = record {
  aggregate_type = row.aggregate_type;
  aggregate_id = row.aggregate_id;
  event_type = row.event_type;
  payload = row.payload;
  dedup_key = row.dedup_key;
}

-- The UPDATE that a dispatch leads to, as a function on the row with the claimed row's id.
unfoldable pub settle :
    EnvVars
    → (now : ℕ) → Random
    → (claimed : OutboxMessageEntity) → Dispatched
    → OutboxMessageEntity
    → OutboxMessageEntity
settle env now random claimed delivered r = record r {
  status = OutboxStatus.sent;
  dispatched_at = some now;
  last_error = none;
}
settle env now random claimed (rejected message) r =
    if leb env.outbox_max_attempts (claimed.attempts + 1)
    then record r {
      status = OutboxStatus.failed;
      attempts = claimed.attempts + 1;
      last_error = some (take 1000 message);
    }
    else record r {
      attempts = claimed.attempts + 1;
      last_error = some (take 1000 message);
      next_attempt_at =
          now + backoff_with_jitter (claimed.attempts + 1) env.outbox_backoff_base_ms none random;
    }

unfoldable pub settle_metrics : EnvVars → (claimed : OutboxMessageEntity) → Dispatched → List Metric
settle_metrics env claimed delivered = outbox_dispatched ∷ []
settle_metrics env claimed (rejected message) =
    if leb env.outbox_max_attempts (claimed.attempts + 1) then outbox_failed ∷ [] else []

pub record Drain (S : Type 0) : Type 0 where
  pub rows : List OutboxMessageEntity
  pub outside : S
  pub metrics : List Metric

module _ {S : Type 0} (dispatch : DispatchMessage → S → Dispatched × S) (env : EnvVars) (now : ℕ)
    (random : OutboxMessageEntity → Random) where
  unfoldable pub dispatch_row : Drain S → OutboxMessageEntity → Drain S
  dispatch_row d row =
      let answer = dispatch (message_of row) d.outside in
      record {
        rows = update_rows (has_id row.id) (settle env now (random row) row answer.0) d.rows;
        outside = answer.1;
        metrics = settle_metrics env row answer.0 ++ d.metrics;
      }

  unfoldable pub dispatch_rows : Drain S → List OutboxMessageEntity → Drain S
  dispatch_rows d [] = d
  dispatch_rows d (row ∷ batch) = dispatch_rows (dispatch_row d row) batch

  -- The number of rows claimed, and what the committed transaction leaves.
  unfoldable pub drain_once : (locked : Text → Bool) → Drain S → ℕ × Drain S
  unfolding claim_batch
  drain_once locked d =
      let batch = claim_batch locked now env.outbox_relay_batch_size d.rows in
      (length batch, dispatch_rows d batch)

-- The timer's flags, and the delay of the timer that is set, if one is.
pub record Timer : Type 0 where
  pub stopped : Bool
  pub draining : Bool
  pub timer : Option ℕ

unfoldable pub schedule_next : ℕ → Timer → Timer
schedule_next delay_ms t = if t.stopped then t else record t { timer = some delay_ms }

-- `processed` is 0 where `drainOnce` threw.
unfoldable pub tick_end : EnvVars → (processed : ℕ) → Timer → Timer
unfolding schedule_next
tick_end env processed t =
    schedule_next
      (if leb env.outbox_relay_batch_size processed then 0 else env.outbox_relay_poll_interval_ms)
      (record t { draining = false })

-- What happens to the timer: it fires, the drain that it began ends, the module is destroyed.
pub data TimerEvent : Type 0 where
  fires : TimerEvent
  ends : (processed : ℕ) → TimerEvent
  destroyed : TimerEvent

-- The timer has fired, so it is no longer set.
unfoldable pub tick_begin : Timer → Timer
tick_begin t =
    if t.stopped || t.draining
    then record t { timer = none }
    else record t { draining = true; timer = none }

unfoldable pub on_timer : EnvVars → TimerEvent → Timer → Timer
unfolding tick_begin tick_end
on_timer env fires t = tick_begin t
on_timer env (ends processed) t = tick_end env processed t
on_timer env destroyed t = record t { stopped = true; timer = none }

abbrev pub on_module_init : Timer
on_module_init = record { stopped = false; draining = false; timer = some 0 }
