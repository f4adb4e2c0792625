-- ===== src/Pipeline/Dlq/Letters.antt =====
-- What a job's failure leaves among the dead letters.
use triage_engine.Prelude.{
  ℕ, Text, Bool, true, false, List, ◌∷◌, Option, none, take, ◌≡◌, refl, arith, find_row, Bool-cases,
  inl, inr,
}
use triage_engine.Entities.{
  DeadLetterEntity, DeadLetterStatus, Metric, events_failed_retry, events_failed_dead_letter,
  events_failed_dead_letter_write_failed,
}
use triage_engine.Pipeline.Failure.{JobError, Probe, on_failed, classify_failure}
use triage_engine.Pipeline.Failure.Laws.{IsLast, classify_failure_iff}
use triage_engine.Pipeline.Dlq.{FailedJob, letter_has_id, new_dead_letter, record_dead_letter}

-- The dead letter tells the failure of the job and may be replayed.
pub record Tells (now : ℕ) (job : FailedJob) (error : JobError) (r : DeadLetterEntity)
    : Type 0 where
  pub open_row : (r.status ≡ DeadLetterStatus.pending) × (r.replayed_at ≡ none)
  pub of_job :
      (r.queue ≡ job.queue_name)
      × (r.job_id ≡ job.id)
      × (r.payload ≡ job.payload)
      × (r.idempotency_key ≡ job.payload.idempotency_key)
  pub failure :
      (r.error_message ≡ take 2000 error.message)
      × (r.error_stack ≡ error.stack)
      × (r.attempts_made ≡ job.attempts_made)
      × (r.failed_at ≡ now)

-- A job's last failure adds one dead letter if the database takes the row: it is PENDING and not
-- replayed, and holds the job's payload, the error and the attempts made. If the database does not
-- take the row, the loss is counted and nothing else changes. A failure that is to be retried adds no
-- dead letter.
pub on_failed_lem :
    (id : Text) (now : ℕ) (job : FailedJob) (attempts : Option ℕ) (error : JobError) (probe : Probe)
    (rows : List DeadLetterEntity) (metrics : List Metric)
    → find_row (letter_has_id id) rows ≡ none
    → (IsLast job.attempts_made attempts error probe
        → ((letter : DeadLetterEntity) × Tells now job error letter
            × (on_failed
                  (record_dead_letter true id now job error)
                  job.attempts_made
                  attempts
                  error
                  probe
                  (rows, metrics)
                ≡ (letter ∷ rows, events_failed_dead_letter ∷ metrics)))
          × (on_failed
                (record_dead_letter false id now job error)
                job.attempts_made
                attempts
                error
                probe
                (rows, metrics)
              ≡ (rows, events_failed_dead_letter_write_failed ∷ metrics)))
      × ((reachable : Bool)
          → ¬ (IsLast job.attempts_made attempts error probe)
          → on_failed
              (record_dead_letter reachable id now job error)
              job.attempts_made
              attempts
              error
              probe
              (rows, metrics)
            ≡ (rows, events_failed_retry ∷ metrics))
unfolding on_failed record_dead_letter
on_failed_lem id now job attempts error probe rows metrics free =
    let iff = classify_failure_iff job.attempts_made attempts error probe in
    (
      λ last. (
        (
          new_dead_letter id now job error,
          record {
            open_row = (refl, refl);
            of_job = (refl, refl, refl, refl);
            failure = (refl, refl, refl, refl);
          },
          ground (arith, iff.1 last, free),
        ),
        ground (arith, iff.1 last, free),
      ),
      λ reachable more.
          elim (Bool-cases (classify_failure job.attempts_made attempts error probe)) [
            | inl last ↦ absurd (more (iff.0 last))
            | inr retried ↦ ground (arith, retried)
          ],
    )
