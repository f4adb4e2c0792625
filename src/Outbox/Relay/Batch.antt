-- ===== src/Outbox/Relay/Batch.antt =====
-- A drain settles each claimed row once, by the answer of its own dispatch, and no other row.
use triage_engine.Prelude.{
  ℕ, ◌≤◌, Text, text_eq, text_eq_iff, text_eq_refl, text_eq_comm, All-both, Bool, false, List, [],
  ◌∷◌, some, none, length, find_row, count_rows, take, leb, ◌≡◌, refl, ◌+◌, ◌/◌, ◌<◌, Bool-cases,
  inl, inr, ◌∙◌, ap, arith, All-mono, All-select_rows, count_rows-update_rows, find_row-update_rows,
  find_row-update_rows_other, All-count_rows_zero,
}
use triage_engine.Config.{EnvVars}
use triage_engine.Backoff.{Random, exponential}
use triage_engine.Backoff.Bounds.{backoff_with_jitter_bounds}
use triage_engine.Entities.{OutboxMessageEntity, OutboxStatus}
use triage_engine.Outbox.{DispatchMessage, Dispatched, delivered, rejected, has_id}
use triage_engine.Outbox.Emit.{HasUniqueIds}
use triage_engine.Outbox.Relay.{
  is_claimable, claim_batch, message_of, settle, Drain, dispatch_row, dispatch_rows, drain_once,
}
use triage_engine.Outbox.Relay.Claim.{
  AllFound, rows-AllFound, All-claim_batch, claim_batch-IsClaimable,
}

-- How a row that was claimed ends where its dispatch was rejected.
pub record IsRejected (env : EnvVars) (now : ℕ) (row : OutboxMessageEntity) (message : Text)
    (r : OutboxMessageEntity) : Type 0 where
  pub kept : r ≡ record row {
    status = r.status;
    attempts = row.attempts + 1;
    last_error = some (take 1000 message);
    next_attempt_at = r.next_attempt_at;
  }
  pub given_up :
      env.outbox_max_attempts ≤ row.attempts + 1
      → (r.status ≡ OutboxStatus.failed) × (r.next_attempt_at ≡ row.next_attempt_at)
  pub tried_again :
      row.attempts + 1 < env.outbox_max_attempts
      → (r.status ≡ row.status)
        × (now + exponential (row.attempts + 1) env.outbox_backoff_base_ms none / 2
            ≤ r.next_attempt_at)
        × (r.next_attempt_at ≤ now + exponential (row.attempts + 1) env.outbox_backoff_base_ms none)

unfoldable pub IsSettled :
    (env : EnvVars) (now : ℕ) (row : OutboxMessageEntity)
    → Dispatched
    → OutboxMessageEntity
    → Type 0
IsSettled env now row delivered r =
    r ≡ record row { status = OutboxStatus.sent; dispatched_at = some now; last_error = none }
IsSettled env now row (rejected message) r = IsRejected env now row message r

module _ {S : Type 0} (dispatch : DispatchMessage → S → Dispatched × S) where
  -- What is delivered to, after one dispatch for each row.
  pub after_dispatches : S → List OutboxMessageEntity → S
  after_dispatches outside [] = outside
  after_dispatches outside (row ∷ batch) =
      after_dispatches (dispatch (message_of row) outside).1 batch

  -- Each row of the batch is settled by the answer to its dispatch, the dispatches made in turn.
  unfoldable pub AreSettled :
      (env : EnvVars) (now : ℕ) (outside : S) (batch final : List OutboxMessageEntity) → Type 0
  unfolding IsSettled
  AreSettled env now outside [] final = Unit {0}
  AreSettled env now outside (row ∷ batch) final =
      ((r : OutboxMessageEntity) × (find_row (has_id row.id) final ≡ some r)
        × IsSettled env now row (dispatch (message_of row) outside).0 r)
      × AreSettled env now (dispatch (message_of row) outside).1 batch final

module _ {S : Type 0} (dispatch : DispatchMessage → S → Dispatched × S) (env : EnvVars) (now : ℕ)
    (random : OutboxMessageEntity → Random) where
  settle_id :
      (draw : Random) (claimed r : OutboxMessageEntity) (answer : Dispatched)
      → (settle env now draw claimed answer r).id ≡ r.id
  unfolding settle
  settle_id draw claimed r delivered = refl
  settle_id draw claimed r (rejected message) = ground arith

  has_id-settle :
      (i : Text) (draw : Random) (claimed r : OutboxMessageEntity) (answer : Dispatched)
      → has_id i (settle env now draw claimed answer r) ≡ has_id i r
  has_id-settle i draw claimed r answer = ap (λ k. text_eq k i) (settle_id draw claimed r answer)

  -- The row that a dispatch is for ends as its answer says.
  pub row_self :
      (d : Drain S) (row : OutboxMessageEntity)
      → find_row (has_id row.id) d.rows ≡ some row
      → find_row (has_id row.id) (dispatch_row dispatch env now random d row).rows
        ≡ some (settle env now (random row) row (dispatch (message_of row) d.outside).0 row)
  unfolding dispatch_row
  row_self d row e =
      let found =
        find_row-update_rows (has_id row.id) (has_id row.id)
          (settle env now (random row) row (dispatch (message_of row) d.outside).0) d.rows
          (λ r. has_id-settle row.id (random row) row r _) row e in
      rw (text_eq_refl row.id) at found

  pub row_other :
      (d : Drain S) (row : OutboxMessageEntity) (i : Text)
      → has_id i row ≡ false
      → find_row (has_id i) (dispatch_row dispatch env now random d row).rows
        ≡ find_row (has_id i) d.rows
  unfolding dispatch_row
  row_other d row i ne =
      find_row-update_rows_other (has_id i) (has_id row.id) _ d.rows
        (λ r. has_id-settle i (random row) row r _)
        (λ r h. ground (arith, ne, text_eq_iff r.id row.id, h))

  -- Rows that no dispatch is for stay as they are.
  rows_other :
      (batch : List OutboxMessageEntity) (d : Drain S) (i : Text)
      → count_rows (has_id i) batch ≡ 0
      → find_row (has_id i) (dispatch_rows dispatch env now random d batch).rows
        ≡ find_row (has_id i) d.rows
  unfolding dispatch_rows count_rows
  rows_other [] d i h = refl
  rows_other (row ∷ batch) d i h =
      rows_other batch (dispatch_row dispatch env now random d row) i (ground arith)
      ∙ row_other d row i (ground arith)

  -- A dispatch changes no row that the rest of the batch was claimed from.
  pub after-AllFound :
      (d : Drain S) (row : OutboxMessageEntity) (batch : List OutboxMessageEntity)
      → count_rows (has_id row.id) batch ≡ 0
      → AllFound d.rows batch
      → AllFound (dispatch_row dispatch env now random d row).rows batch
  unfolding AllFound
  after-AllFound d row batch absent f =
      All-mono batch (λ r both. row_other d row r.id (text_eq_comm row.id r.id ∙ both.0) ∙ both.1)
        (All-both _ _ batch (All-count_rows_zero (has_id row.id) batch absent) f)

  settle-IsSettled :
      (row : OutboxMessageEntity) (answer : Dispatched)
      → IsSettled env now row answer (settle env now (random row) row answer row)
  unfolding settle IsSettled
  settle-IsSettled row delivered = refl
  settle-IsSettled row (rejected message) =
      elim (Bool-cases (leb env.outbox_max_attempts (row.attempts + 1))) [
        | inl last ↦ rw last (record {
          kept = refl;
          given_up = λ h. (refl, refl);
          tried_again = λ h. absurd (ground (arith, last, h));
        })
        | inr more ↦ rw more (record {
          kept = refl;
          given_up = λ h. absurd (ground (arith, more, h));
          tried_again = λ h.
              let bounds =
                backoff_with_jitter_bounds (row.attempts + 1) env.outbox_backoff_base_ms none
                  (random row) in
              (refl, omega (arith, bounds.0), omega (arith, bounds.1));
        })
      ]

  rows-AreSettled :
      (batch : List OutboxMessageEntity) (d : Drain S)
      → HasUniqueIds batch
      → AllFound d.rows batch
      → AreSettled dispatch env now d.outside batch
          (dispatch_rows dispatch env now random d batch).rows
  unfolding dispatch_rows count_rows AllFound dispatch_row AreSettled
  rows-AreSettled [] d u f = tt
  rows-AreSettled (row ∷ batch) d u f =
      let d' = dispatch_row dispatch env now random d row in
      let absent : count_rows (has_id row.id) batch ≡ 0 =
        ground (arith, u row.id, text_eq_refl row.id) in
      (
        (
          settle env now (random row) row (dispatch (message_of row) d.outside).0 row,
          rows_other batch d' row.id absent ∙ row_self d row f.0,
          settle-IsSettled row (dispatch (message_of row) d.outside).0,
        ),
        rows-AreSettled batch d' (λ i. ground (arith, u i)) (after-AllFound d row batch absent f.1),
      )

  dispatch_rows-outside :
      (batch : List OutboxMessageEntity) (d : Drain S)
      → (dispatch_rows dispatch env now random d batch).outside
        ≡ after_dispatches dispatch d.outside batch
  unfolding dispatch_rows dispatch_row after_dispatches
  dispatch_rows-outside [] d = refl
  dispatch_rows-outside (row ∷ batch) d =
      dispatch_rows-outside batch (dispatch_row dispatch env now random d row)

  settle_keeps :
      (draw : Random) (claimed r : OutboxMessageEntity) (answer : Dispatched)
      → ((settle env now draw claimed answer r).dedup_key ≡ r.dedup_key)
        × ((settle env now draw claimed answer r).id ≡ r.id)
  unfolding settle
  settle_keeps draw claimed r delivered = (refl, refl)
  settle_keeps draw claimed r (rejected message) = (ground arith, ground arith)

  -- A drain adds and removes no row, and keeps ids and dedup keys.
  pub dispatch_rows_count :
      (p : OutboxMessageEntity → Bool)
      → ((a b : OutboxMessageEntity) → a.dedup_key ≡ b.dedup_key → a.id ≡ b.id → p a ≡ p b)
      → (d : Drain S) (batch : List OutboxMessageEntity)
      → count_rows p (dispatch_rows dispatch env now random d batch).rows ≡ count_rows p d.rows
  unfolding dispatch_rows dispatch_row
  dispatch_rows_count p h d [] = refl
  dispatch_rows_count p h d (row ∷ batch) =
      dispatch_rows_count p h (dispatch_row dispatch env now random d row) batch
      ∙ count_rows-update_rows p _ _ d.rows
          (λ r. let keeps = settle_keeps (random row) row r _ in h _ r keeps.0 keeps.1)

  -- A drain reports the size of its batch, and dispatches each row of it once, in turn. A row that is
  -- delivered ends as SENT at the drain's time with no error; a row that is rejected keeps the error
  -- and one more attempt, and is FAILED where that was its last one, and else due again after a
  -- backoff. No other column of these rows changes, and a row that is not in the batch keeps all.
  pub drain_once_lem :
      (locked : Text → Bool) (d : Drain S)
      → HasUniqueIds d.rows
      → let batch = claim_batch locked now env.outbox_relay_batch_size d.rows in
        let result = drain_once dispatch env now random locked d in
        (result.0 ≡ length batch)
        × (result.1.outside ≡ after_dispatches dispatch d.outside batch)
        × AreSettled dispatch env now d.outside batch result.1.rows
        × ((i : Text)
            → count_rows (has_id i) batch ≡ 0
            → find_row (has_id i) result.1.rows ≡ find_row (has_id i) d.rows)
  unfolding drain_once AllFound
  drain_once_lem locked d u =
      let batch = claim_batch locked now env.outbox_relay_batch_size d.rows in
      let lem = claim_batch-IsClaimable locked now env.outbox_relay_batch_size d.rows u in
      (
        refl,
        dispatch_rows-outside batch d,
        rows-AreSettled batch d lem.2 (
            All-claim_batch _ locked now env.outbox_relay_batch_size d.rows
              (All-select_rows _ (is_claimable locked now) d.rows (rows-AllFound d.rows u))),
        λ i h. rows_other batch d i h,
      )
