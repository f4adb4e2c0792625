-- ===== src/Tests/Service.antt =====
-- Runs of the whole service.
use triage_engine.Prelude.{
  Option, none, some, ◌≡◌, ◌≤◌, codes, text_eq, [], ◌∷◌, refl, inl, inr, find_row, count_rows,
  update_rows, All,
}
use triage_engine.Config.{default_env}
use triage_engine.Entities.{EnrichmentStatus, PipelineJobData}
use triage_engine.Idempotency.{insert_key, new_key}
use triage_engine.Outbox.{has_dedup_key, emit, build_dedup_key, new_message}
use triage_engine.Events.Insert.{create_ticket_if_absent, insert_event_and_ticket}
use triage_engine.Idempotency.{lock_for_update}
use triage_engine.Events.Create.{inserted}
use triage_engine.Pipeline.Processor.{
  persist_and_emit, effect_of, emit_effect, write_outcome, is_writable, side_effect,
  side_effect_triaged,
}
use triage_engine.History.{
  State, inserts_key, creates, loads, persists, Run, here, then_step, tickets_for, empty_db,
}
use triage_engine.History.OneTicket.{Run-one_ticket, IsEnriched, Run-IsEnriched}
use triage_engine.History.Effects.{IsNotified, triaged_key}
use triage_engine.History.Notified.{Run-IsNotified}
use triage_engine.History.Promise.{PromiseRun, promise_of}
use triage_engine.History.Kept.{Keeps}
use triage_engine.History.Refinement.{Run-PromiseRun}
use triage_engine.Correlation.{request_correlation, one}
use triage_engine.Correlation.Trace.{Posts, dispatch-effect_of}
use triage_engine.Outbox.{EmitInput, delivered}
use triage_engine.Outbox.Relay.{message_of}
use triage_engine.Outbox.Webhook.{HttpRequest, Fetched, responded, dispatch_in_scope}
use triage_engine.Tests.{
  sample_key, sample_event, sample_draws, sample_job, sample_outcome, counting,
}

abbrev start : State
start = record { db = empty_db; reads = [] }

abbrev claimed : State
claimed = record {
  db = record empty_db { idempotency_keys = new_key (codes "k") sample_key (codes "h") 10 ∷ [] };
  reads = [];
}

abbrev created : State
created = record claimed { db = inserted sample_key sample_event sample_draws claimed.db }

abbrev loaded : State
loaded = record created { reads = (codes "t", EnrichmentStatus.pending) ∷ [] }

abbrev triaged : State
triaged = record loaded {
  db = record (loaded.db) {
    tickets =
        update_rows (is_writable (codes "t") EnrichmentStatus.enriched)
          (write_outcome 40 sample_outcome) loaded.db.tickets;
    outbox_messages =
        new_message (codes "m") 40
          (side_effect side_effect_triaged (codes "t") sample_outcome sample_job)
        ∷ [];
  };
}

-- An event comes in, and its job enriches the ticket.
triage-Run : Run counting default_env start triaged
unfolding insert_key find_row create_ticket_if_absent insert_event_and_ticket lock_for_update
    text_eq persist_and_emit effect_of emit_effect emit count_rows build_dedup_key update_rows
triage-Run =
    then_step
      (then_step
        (then_step
          (then_step here (
            inserts_key (codes "k") sample_key (codes "h") 10 claimed.db.idempotency_keys refl
              refl))
          (creates sample_key sample_event sample_draws (codes "t", codes "e") created.db refl
            refl))
        (loads (codes "t") _ refl refl))
      (persists (codes "m") 40 (codes "t") EnrichmentStatus.pending sample_outcome sample_job
        triaged.db (inl (refl, refl)) (inl refl) refl refl)

Run-one_ticket_example :
    (tickets_for sample_key triaged.db.events triaged.db.tickets ≤ 1)
    × (count_rows (has_dedup_key (triaged_key (codes "t"))) triaged.db.outbox_messages ≤ 1)
Run-one_ticket_example =
    Run-one_ticket counting default_env triaged sample_key (triaged_key (codes "t")) triage-Run

Run-IsNotified_example : All (IsNotified triaged.db.outbox_messages) triaged.db.tickets
Run-IsNotified_example = Run-IsNotified counting default_env triaged triage-Run

-- A slower job that read PENDING as well writes a degraded outcome.
late-Run : Run counting default_env triaged triaged
unfolding persist_and_emit count_rows text_eq update_rows
late-Run = then_step here (
    persists (codes "m2") 50 (codes "t") EnrichmentStatus.pending
      (record sample_outcome { status = EnrichmentStatus.degraded }) sample_job triaged.db
      (inl (refl, refl)) (inr refl) refl refl)

Run-PromiseRun_example :
    PromiseRun (promise_of triaged.db) (promise_of triaged.db)
    × Keeps (promise_of triaged.db) (promise_of triaged.db)
Run-PromiseRun_example = Run-PromiseRun counting default_env triaged triaged triage-Run late-Run

triaged_once : IsEnriched (codes "t") triaged.db.tickets
unfolding find_row text_eq update_rows
triaged_once = (_, refl, refl)

Run-IsEnriched_example : IsEnriched (codes "t") triaged.db.tickets
Run-IsEnriched_example = Run-IsEnriched counting default_env (codes "t") late-Run triaged_once

-- The request of the job had an id.
abbrev traced_job : PipelineJobData
traced_job = record sample_job {
  correlation_id = some (request_correlation (one (codes "trace-7")) (codes "minted"));
}

abbrev traced_effect : EmitInput
traced_effect = side_effect side_effect_triaged (codes "t") sample_outcome traced_job

-- It answers by 200 and keeps the last request.
abbrev keeps_request : HttpRequest → Option HttpRequest → Fetched × Option HttpRequest
keeps_request request last = (responded 200 (codes "OK"), some request)

dispatch-effect_of_example :
    (request : HttpRequest) × (dispatch_in_scope keeps_request
        (λ json. [])
        default_env
        (codes "f")
        (message_of (new_message (codes "m") 40 traced_effect))
        none
      ≡ (delivered, some request))
    × Posts (λ json. []) default_env traced_effect (codes "trace-7") request
unfolding request_correlation effect_of
dispatch-effect_of_example =
    dispatch-effect_of keeps_request (λ json. []) default_env (codes "f") (codes "m") 40
      EnrichmentStatus.pending (codes "t") sample_outcome traced_job traced_effect none refl
