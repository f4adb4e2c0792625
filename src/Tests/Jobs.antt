-- ===== src/Tests/Jobs.antt =====
-- Jobs, their failures and the dead letters.
use triage_engine.Prelude.{
  ◌≤◌, ◌/◌, Text, codes, text_eq, List, [], ◌∷◌, none, some, ◌≡◌, ◌↔◌, refl, true, false, Bool,
  arith, find_row, count_rows,
}
use triage_engine.Config.{default_env}
use triage_engine.Entities.{
  events_failed_dead_letter, events_failed_dead_letter_write_failed, events_failed_retry,
}
use triage_engine.Backoff.{backoff_with_jitter, exponential, max_safe_integer}
use triage_engine.Backoff.Bounds.{backoff_with_jitter_bounds}
use triage_engine.Pipeline.{World, conflict, threw}
use triage_engine.Pipeline.JobId.{is_usable_as_job_id, replay_job_id}
use triage_engine.Prelude.{All, Option}
use triage_engine.Entities.{TicketEntity, EnrichmentStatus, DeadLetterEntity}
use triage_engine.Events.Insert.{new_ticket}
use triage_engine.Enrichment.Fallback.{starts_with}
use triage_engine.Pipeline.JobId.{upgrade_job_id}
use triage_engine.Pipeline.Processor.{JobDraws, EnrichmentOutcome, process}
use triage_engine.Pipeline.Processor.Upgrade.{process_keeps}
use triage_engine.Tests.{sample_outcome, sample_event, sample_draws}
use triage_engine.Prelude.{
  false, not, is_some, or_else, ◌≢◌, subst, if◌then◌else◌, text_eq_iff, text_eq_refl,
}
use triage_engine.Queue.{QueueOps}
use triage_engine.Pipeline.JobId.{reconcile_job_id}
use triage_engine.Pipeline.Producer.{clear_failed, reconcile_added, enqueue_reconcile}
use triage_engine.Pipeline.Producer.Redrive.{KeepsIds, enqueue_reconcile_unblocks}
use triage_engine.Pipeline.JobId.Laws.{upgrade, job_id-injective}
use triage_engine.Pipeline.Producer.{enqueue_replay}
use triage_engine.Pipeline.Failure.{JobError, answered, timed_out, classify_failure, on_failed}
use triage_engine.Pipeline.Failure.Laws.{IsLast, classify_failure_iff}
use triage_engine.Pipeline.Dlq.{FailedJob, record_dead_letter, flip, after_replay, replay}
use triage_engine.Pipeline.Dlq.Laws.{replay_once, replay_refused}
use triage_engine.Pipeline.Dlq.Letters.{Tells, on_failed_lem}
use triage_engine.Tests.{
  open_queue, closed_queue, empty_world, sample_key, sample_job, sample_letter, half,
}

abbrev letter_world : World (List Text)
letter_world = record empty_world {
  db = record (empty_world.db) { dead_letters = sample_letter ∷ [] };
}

abbrev replayed_world : World (List Text)
replayed_world = (replay open_queue default_env (codes "d") 50 letter_world).1

replay_once_example :
    replay open_queue default_env (codes "d") 60 replayed_world ≡ (conflict, replayed_world)
unfolding replay flip after_replay find_row text_eq enqueue_replay
replay_once_example =
    replay_once open_queue default_env (codes "d") 50 60 letter_world replayed_world
      (record { dead_letter_id = codes "d"; job_id = replay_job_id sample_key (codes "d") }) refl

replay_refused_example :
    ((replay closed_queue default_env (codes "d") 50 letter_world).0 ≡ threw)
    × ((replay closed_queue default_env (codes "d") 50 letter_world).1.db ≡ letter_world.db)
unfolding find_row text_eq enqueue_replay count_rows
replay_refused_example =
    replay_refused closed_queue default_env (codes "d") 50 letter_world sample_letter (omega arith)
      ((λ waits. refl), tt) refl refl

abbrev boom : JobError
boom = record {
  is_unrecoverable = false;
  name = codes "Error";
  message = codes "boom";
  stack = none;
}

abbrev failing : FailedJob
failing = record {
  queue_name = codes "ticket-pipeline";
  id = sample_key;
  payload = sample_job;
  attempts_made = 5;
}

classify_failure_iff_example :
    (classify_failure 1 (some 5) boom timed_out ≡ true) ↔ IsLast 1 (some 5) boom timed_out
classify_failure_iff_example = classify_failure_iff 1 (some 5) boom timed_out

on_failed_lem_example :
    (IsLast 5 (some 5) boom (answered false)
      → ((letter : DeadLetterEntity) × Tells 30 failing boom letter
          × (on_failed
                (record_dead_letter true (codes "d") 30 failing boom)
                5
                (some 5)
                boom
                (answered false)
                ([], [])
              ≡ (letter ∷ [], events_failed_dead_letter ∷ [])))
        × (on_failed
              (record_dead_letter false (codes "d") 30 failing boom)
              5
              (some 5)
              boom
              (answered false)
              ([], [])
            ≡ ([], events_failed_dead_letter_write_failed ∷ [])))
    × ((reachable : Bool)
        → ¬ (IsLast 5 (some 5) boom (answered false))
        → on_failed
            (record_dead_letter reachable (codes "d") 30 failing boom)
            5
            (some 5)
            boom
            (answered false)
            ([], [])
          ≡ ([], events_failed_retry ∷ []))
unfolding find_row
on_failed_lem_example =
    on_failed_lem (codes "d") 30 failing (some 5) boom (answered false) [] [] refl

job_id-injective_example : (sample_key ≡ sample_key) × (upgrade 2 ≡ upgrade 2)
unfolding is_usable_as_job_id
job_id-injective_example =
    job_id-injective sample_key sample_key (upgrade 2) (upgrade 2) refl refl refl

backoff_with_jitter_bounds_example :
    (exponential 3 1000 none / 2 ≤ backoff_with_jitter 3 1000 none half)
    × (backoff_with_jitter 3 1000 none half ≤ exponential 3 1000 none)
    × (backoff_with_jitter 3 1000 none half ≤ max_safe_integer)
backoff_with_jitter_bounds_example = backoff_with_jitter_bounds 3 1000 none half

-- Every queued job is of the sample's key.
abbrev OfSampleKey : List Text → Type 0
OfSampleKey = All (λ id. starts_with sample_key id ≡ true)

abbrev job_draws : JobDraws
job_draws = record { message_id = codes "m"; now = 40; random = half }

abbrev degrading : TicketEntity → Option EnrichmentOutcome
degrading t = some (record sample_outcome { status = EnrichmentStatus.degraded })

abbrev ticket_world : World (List Text)
ticket_world = record empty_world {
  db = record (empty_world.db) { tickets = new_ticket sample_event sample_draws ∷ [] };
}

process_keeps_example :
    OfSampleKey (process open_queue default_env degrading job_draws sample_job ticket_world).1.redis
unfolding starts_with upgrade_job_id
process_keeps_example =
    process_keeps open_queue default_env degrading OfSampleKey job_draws sample_job ticket_world
      (λ attempt delay_ms redis next within low high safe. (refl, safe)) tt

-- A queue as the map from its ids to whether their jobs have failed.
abbrev Ids : Type 0
Ids = Text → Option Bool

abbrev id_queue : QueueOps Ids
id_queue = record {
  add = λ request redis. (
    some request.job_id,
    λ id. if text_eq id request.job_id then some (or_else (redis id) false) else redis id,
  );
  get_job = λ id redis. some (if is_some (redis id) then some id else none);
  is_failed = λ id redis. some (or_else (redis id) false);
  remove = λ id redis. some (λ other. if text_eq other id then none else redis other);
}

id_queue-KeepsIds : KeepsIds id_queue (λ id redis. redis id)
id_queue-KeepsIds = record {
  got = λ id redis job e. (ground (arith, e), ground (arith, e));
  failed = λ id redis b e. ground (arith, e);
  removed = λ id redis redis' e.
      let same : (λ other. if text_eq other id then none else redis other) ≡ redis' =
        ground (arith, e) in
      subst (λ (r : Ids). (r id ≡ none) × ((other : Text) → other ≢ id → r other ≡ redis other))
        same (rw (text_eq_refl id) refl, λ other ne. ground (arith, ne, text_eq_iff other id));
  added = λ request redis redis' id e.
      let same : (λ other.
        if text_eq other request.job_id then some (or_else (redis other) false) else redis other)
          ≡ redis' =
        ground (arith, e) in
      (
        ground (arith, e),
        subst (λ (r : Ids). r request.job_id ≡ some (or_else (redis request.job_id) false)) same
            (rw (text_eq_refl request.job_id) refl),
        subst (λ (r : Ids). (other : Text) → other ≢ request.job_id → r other ≡ redis other) same
            (λ other ne. ground (arith, ne, text_eq_iff other request.job_id)),
      );
}

enqueue_reconcile_unblocks_example :
    let id = reconcile_job_id sample_key in
    let redis' = (enqueue_reconcile id_queue default_env sample_job (λ _. some true)).1 in
    (redis' id ≡ some false)
    × (false ≡ not (is_some (some true)))
    × ((other : Text) → other ≢ id → redis' other ≡ some true)
unfolding enqueue_reconcile clear_failed reconcile_added text_eq reconcile_job_id
enqueue_reconcile_unblocks_example =
    enqueue_reconcile_unblocks id_queue (λ id redis. redis id) id_queue-KeepsIds default_env
      sample_job (λ _. some true)
      (enqueue_reconcile id_queue default_env sample_job (λ _. some true)).1 false refl
