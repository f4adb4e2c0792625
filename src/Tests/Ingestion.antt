-- ===== src/Tests/Ingestion.antt =====
-- Ingestion and the idempotency keys at concrete inputs.
use triage_engine.Prelude.{
  ℕ, Text, codes, text_eq, List, [], ◌∷◌, none, some, ◌≡◌, ◌≤◌, refl, arith, find_row, count_rows,
  update_rows,
}
use triage_engine.Config.{default_env}
use triage_engine.Entities.{IngestResult, Db, IdempotencyKeyEntity}
use triage_engine.Idempotency.{claim, insert_key, lock_for_update, attach_ticket, new_key, has_key}
use triage_engine.Idempotency.Claim.{expected, Leaves, claim_lem}
use triage_engine.Idempotency.Race.{
  Caller, starting, Race, run_caller, fresh_race, here, then_step, act,
}
use triage_engine.Idempotency.Race.Marks.{AreSpread}
use triage_engine.Idempotency.Race.Exclusion.{Run-AreSpread}
use triage_engine.Pipeline.{World}
use triage_engine.Pipeline.Producer.{enqueue}
use triage_engine.Events.Insert.{create_ticket_if_absent, insert_event_and_ticket}
use triage_engine.Events.{
  ingest, answer_claim, process_new, after_create, after_enqueue, complete_new, accepted_response,
}
use triage_engine.Idempotency.{is_new, replay, mark_failed}
use triage_engine.Prelude.{◌+◌, ◌<◌, ◌≢◌, ◌⊎◌, is_some, true}
use triage_engine.Events.Insert.{answered, refused, lost}
use triage_engine.Events.{fail_new}
use triage_engine.Events.Retry.{ingest_retryable}
use triage_engine.Tests.{closed_queue}
use triage_engine.Json.{hash_payload}
use triage_engine.Events.Create.{create_again, inserted}
use triage_engine.Events.Redelivery.{ingest_again, redelivered}
use triage_engine.Pipeline.JobId.{is_usable_as_job_id}
use triage_engine.Tests.{
  open_queue, sample_key, sample_event, sample_draws, later_draws, empty_world,
}

abbrev first_answer : IngestResult
first_answer = accepted_response sample_key (codes "t") sample_key

abbrev first_world : World (List Text)
first_world =
    (ingest open_queue default_env (λ t. t) (λ j. codes "{}") sample_event none none sample_draws
      empty_world).1

ingest_again_example :
    ingest open_queue default_env
      (λ t. t)
      (λ j. codes "{}")
      sample_event
      none
      none
      later_draws
      first_world
    ≡ redelivered open_queue default_env
        (λ t. t)
        (λ j. codes "{}")
        sample_key
        first_answer
        first_world
unfolding ingest answer_claim claim insert_key find_row process_new create_ticket_if_absent
    insert_event_and_ticket lock_for_update attach_ticket update_rows after_create after_enqueue
    complete_new enqueue is_usable_as_job_id text_eq
ingest_again_example =
    ingest_again open_queue default_env (λ t. t) (λ j. codes "{}") sample_event none none none
      sample_draws later_draws first_answer empty_world first_world refl refl

-- A key that was claimed at 10, read at 20 under a lease of 300 seconds.
abbrev held_rows : List IdempotencyKeyEntity
held_rows = new_key (codes "k") sample_key (codes "h") 10 ∷ []

claim_lem_example :
    (rows' : List IdempotencyKeyEntity) × (claim 300000
        (codes "k2")
        sample_key
        (codes "h")
        20
        21
        held_rows
      ≡ some (expected 300000 (codes "h") 21 (find_row (has_key sample_key) held_rows), rows'))
    × Leaves sample_key held_rows rows'
claim_lem_example =
    claim_lem 300000 (codes "k2") sample_key (codes "h") 20 21 held_rows
      (unfold count_rows in λ j. ground arith)

-- Two callers; the second runs its INSERT after the first.
abbrev two_callers : ℕ → Caller
two_callers i = starting (codes "k") (codes "h")

abbrev after_two : Race
after_two =
    run_caller 300000 sample_key 1 (run_caller 300000 sample_key 0 (fresh_race 10 two_callers))

Run-AreSpread_example :
    AreSpread 300000 after_two.log × (count_rows (has_key sample_key) after_two.rows ≤ 1)
Run-AreSpread_example =
    Run-AreSpread 300000 sample_key 10 two_callers after_two
      (then_step (then_step here (act 0 refl)) (act 1 refl))

abbrev claimed_db : Db
claimed_db = record (empty_world.db) { idempotency_keys = held_rows }

create_again_example :
    create_ticket_if_absent sample_key sample_event later_draws
      (inserted sample_key sample_event sample_draws claimed_db)
    ≡ some ((codes "t", codes "e"), inserted sample_key sample_event sample_draws claimed_db)
unfolding create_ticket_if_absent insert_event_and_ticket lock_for_update find_row text_eq
create_again_example =
    create_again sample_key sample_event sample_event sample_draws later_draws
      (codes "t", codes "e") claimed_db (inserted sample_key sample_event sample_draws claimed_db)
      refl

-- The queue cannot be reached, so the request throws after its transaction.
abbrev thrown_world : World (List Text)
thrown_world =
    (ingest closed_queue default_env (λ t. t) (λ j. codes "{}") sample_event none none sample_draws
      empty_world).1

ingest_retryable_example :
    let again =
      claim 300000
        (codes "k3")
        sample_key
        (codes "{}")
        20
        400000
        thrown_world.db.idempotency_keys in
    (answered ≢ refused
      → answered ≡ answered
      → (rows : List IdempotencyKeyEntity) × (again ≡ some (is_new, rows)))
    × (10 + 300000 < 400000
        → 11 + 300000 < 400000
        → ((rows : List IdempotencyKeyEntity) × (again ≡ some (is_new, rows)))
          ⊎ ((r : IdempotencyKeyEntity) × (again
                ≡ some (replay r, thrown_world.db.idempotency_keys))
              × (answered ≡ lost)
              × (is_some r.ticket_id ≡ true)
              × (is_some r.response_body ≡ true)))
unfolding hash_payload ingest answer_claim claim insert_key find_row process_new
    create_ticket_if_absent insert_event_and_ticket lock_for_update attach_ticket mark_failed
    update_rows after_create after_enqueue fail_new enqueue is_usable_as_job_id text_eq
ingest_retryable_example =
    ingest_retryable closed_queue default_env (λ t. t) (λ j. codes "{}") sample_event none none
      sample_draws (codes "k3") 20 400000 empty_world thrown_world
      (unfold count_rows in λ j. omega arith) refl
