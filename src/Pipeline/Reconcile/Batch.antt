-- ===== src/Pipeline/Reconcile/Batch.antt =====
-- What a reconciliation sweep picks up, and what it counts.
use triage_engine.Prelude.{
  ℕ, ◌+◌, ◌≤◌, ◌<◌, counts_self, count_rows, All-both, All-select_rows, text_eq_refl, All-mono,
  All-take, select_rows_sound, length, length-take, refl, ◌≡◌, true, false, not, ◌||◌, none, some,
  Option, Bool, arith, text_eq, List, [], ◌∷◌, inl, inr, All, All-append, map, select_rows,
  Bool-cases, leb,
}
use triage_engine.Entities.{EventEntity, TicketEntity}
use triage_engine.Config.{EnvVars}
use triage_engine.Entities.{Db, ticket_has_id, is_degraded}
use triage_engine.Queue.{QueueOps}
use triage_engine.Pipeline.Producer.{enqueue_reconcile}
use triage_engine.Pipeline.Reconcile.{
  is_stranded, stranded, reconcile_job, Redriven, tally, redrive, sweep, StrandedRow, stranded_row,
  join_events, insert_by_update, order_by_update,
}

module _ (P : StrandedRow → Type 0) where
  All-insert_by_update :
      (r : StrandedRow) (rows : List StrandedRow)
      → P r
      → All P rows
      → All P (insert_by_update r rows)
  unfolding insert_by_update
  All-insert_by_update r [] p a = (p, tt)
  All-insert_by_update r (s ∷ rows) p a = elim (Bool-cases (leb r.updated_at s.updated_at)) [
    | inl first ↦ rw first (p, a)
    | inr later ↦ rw later (a.0, All-insert_by_update r rows p a.1)
  ]

  All-order_by_update : (rows : List StrandedRow) → All P rows → All P (order_by_update rows)
  unfolding order_by_update
  All-order_by_update [] a = tt
  All-order_by_update (r ∷ rows) a =
      All-insert_by_update r (order_by_update rows) a.0 (All-order_by_update rows a.1)

  All-joined :
      (t : TicketEntity) (events : List EventEntity)
      → ((e : EventEntity) → P (stranded_row t e))
      → All P (map (stranded_row t) events)
  All-joined t [] h = tt
  All-joined t (e ∷ events) h = (h e, All-joined t events h)

  All-join_events :
      (events : List EventEntity) (tickets : List TicketEntity)
      → All (λ t. (e : EventEntity) → P (stranded_row t e)) tickets
      → All P (join_events events tickets)
  unfolding join_events
  All-join_events events [] a = tt
  All-join_events events (t ∷ tickets) a =
      All-append P
        (map (stranded_row t) (select_rows (λ (e : EventEntity). text_eq e.id t.event_id) events)) _
        (All-joined t _ a.0) (All-join_events events tickets a.1)

-- The row is that of a ticket of the table that has been DEGRADED for longer than the limit.
abbrev pub IsOfStranded : EnvVars → (now : ℕ) → List TicketEntity → StrandedRow → Type 0
IsOfStranded env now tickets row =
    (t : TicketEntity) × (0 < count_rows (ticket_has_id t.id) tickets)
    × (is_degraded t.enrichment_status ≡ true)
    × (t.updated_at + env.reconcile_degraded_after_ms < now)
    × (row.ticket_id ≡ t.id)
    × (row.event_id ≡ t.event_id)
    × (row.updated_at ≡ t.updated_at)

-- A batch holds at most its limit of rows, each of a ticket of the table that has been DEGRADED for
-- longer than the limit.
pub stranded_lem :
    (env : EnvVars) (now : ℕ) (db : Db)
    → (length (stranded env now db) ≤ env.reconcile_batch_size)
      × All (IsOfStranded env now db.tickets) (stranded env now db)
unfolding stranded
stranded_lem env now db =
    let chosen = select_rows (is_stranded env.reconcile_degraded_after_ms now) db.tickets in
    (
      omega (
        arith,
        length-take env.reconcile_batch_size (order_by_update (join_events db.events chosen)),
      ),
      All-take _ env.reconcile_batch_size (order_by_update (join_events db.events chosen)) (
          All-order_by_update _ (join_events db.events chosen) (
            All-join_events _ db.events chosen (
              All-mono chosen
                (λ t both e.
                  (t, both.1, ground (arith, both.0), ground (arith, both.0), refl, refl, refl))
                (All-both _ _ chosen
                  (select_rows_sound (is_stranded env.reconcile_degraded_after_ms now) db.tickets)
                  (All-select_rows _ (is_stranded env.reconcile_degraded_after_ms now) db.tickets (
                    counts_self (λ t s. ticket_has_id t.id s) db.tickets
                      (λ t. text_eq_refl t.id))))))),
    )

module _ {R : Type 0} (q : QueueOps R) (env : EnvVars) where
  tally_le :
      (answer : Option Bool × R) (counts : Redriven R)
      → (tally answer counts).redriven + (tally answer counts).failed
        ≤ counts.redriven + counts.failed + 1
  unfolding tally
  tally_le (none, redis) counts = omega arith
  tally_le (some true, redis) counts = omega arith
  tally_le (some false, redis) counts = omega arith

  -- Each row of a batch is counted once at most.
  redrive_le :
      (rows : List StrandedRow) (counts : Redriven R)
      → (redrive q env rows counts).redriven + (redrive q env rows counts).failed
        ≤ counts.redriven + counts.failed + length rows
  unfolding redrive
  redrive_le [] counts = omega arith
  redrive_le (row ∷ rows) counts =
      let answer = enqueue_reconcile q env (reconcile_job row) counts.redis in
      omega (arith, redrive_le rows (tally answer counts), tally_le answer counts)

  -- A sweep reports at most its batch size of tickets; a sweep that is stopped, that overlaps another
  -- or that cannot read the table reports none, and leaves the queue alone.
  pub sweep_lem :
      (stopped running reachable : Bool) (now : ℕ) (db : Db) (redis : R)
      → ((sweep q env stopped running reachable now db redis).0 ≤ env.reconcile_batch_size)
        × ((stopped || running || not reachable) ≡ true
            → sweep q env stopped running reachable now db redis ≡ (0, redis))
  unfolding sweep
  sweep_lem stopped running reachable now db redis =
      let start : Redriven R = record { redriven = 0; failed = 0; redis = redis } in
      (
        ground (arith, (stranded_lem env now db).0, redrive_le (stranded env now db) start),
        λ h. ground (arith, h),
      )
