-- ===== src/Tests/Upkeep.antt =====
-- Enrichment, retention and reconciliation at concrete inputs.
use triage_engine.Prelude.{
  ℕ, ◌+◌, Option, some, ◌≤◌, codes, true, false, not, ◌&&◌, [], ◌∷◌, none, ◌≡◌, ◌⊎◌, arith, All,
  length, select_rows, count_rows, text_eq,
}
use triage_engine.Config.{EnvVars, default_env}
use triage_engine.Entities.{
  Db, TicketEntity, EnrichmentStatus, EnrichmentSource, is_due, is_unresolved, urgent, high, low,
  medium,
}
use triage_engine.Events.Insert.{new_event, new_ticket}
use triage_engine.Enrichment.{call_with_retry, enrich, is_configured}
use triage_engine.Enrichment.Laws.{Calls, Reports, call_with_retry_lem, enrich_lem}
use triage_engine.Enrichment.Fallback.{
  LlmEnrichment, classify, prioritize, urgent_words, high_words, low_words,
}
use triage_engine.Enrichment.Words.{Mentions, prioritize_lem}
use triage_engine.Retention.{prune, sweep}
use triage_engine.Retention.Laws.{
  HasReferences, prune-HasReferences, sweep_keeps_open, is_open_key, is_open_ticket,
}
use triage_engine.Tests.{
  closed_breaker, half, sample_key, sample_event, sample_draws, sample_message, sample_letter,
}

abbrev a_ticket : TicketEntity
a_ticket = new_ticket sample_event sample_draws

abbrev a_db : Db
a_db = record {
  events = new_event sample_key sample_event sample_draws ∷ [];
  tickets = record a_ticket { enrichment_status = EnrichmentStatus.degraded } ∷ [];
  idempotency_keys = [];
  outbox_messages = sample_message ∷ [];
  dead_letters = sample_letter ∷ [];
}

call_with_retry_lem_example :
    let called = call_with_retry closed_breaker default_env (λ _. half) (λ t. t) 2 1 a_ticket 0 in
    (length called.slept ≤ 2)
    × All (λ delay. delay ≤ 5000) called.slept
    × (called.result ≡ none → (false ≡ true) ⊎ (length called.slept ≡ 2))
call_with_retry_lem_example =
    call_with_retry_lem closed_breaker default_env (λ _. half) (λ t. t) 2 1 a_ticket 0

-- With a key set and the circuit closed.
abbrev keyed_env : EnvVars
keyed_env = record default_env { mistral_api_key = some (codes "key") }

enrich_lem_example :
    let (outcome, b', metrics') =
      enrich closed_breaker keyed_env (λ _. half) (λ t. t) a_ticket 0 [] in
    ((is_configured keyed_env.mistral_api_key && not (closed_breaker.is_open 0) ≡ false)
      → Reports EnrichmentStatus.degraded EnrichmentSource.fallback
          (classify (λ t. t) a_ticket)
          outcome
        × (b' ≡ 0))
    × ((is_configured keyed_env.mistral_api_key ≡ true)
        → (closed_breaker.is_open 0 ≡ false)
        → (n : ℕ) × (answer : Option LlmEnrichment) × Calls closed_breaker a_ticket 0 n answer b'
          × (n ≤ keyed_env.mistral_max_retries + 1)
          × ((result : LlmEnrichment)
              → answer ≡ some result
              → Reports EnrichmentStatus.enriched EnrichmentSource.ai result outcome)
          × (answer ≡ none
              → Reports EnrichmentStatus.degraded EnrichmentSource.fallback
                  (classify (λ t. t) a_ticket)
                  outcome
                × ((closed_breaker.is_open b' ≡ true) ⊎ (n ≡ keyed_env.mistral_max_retries + 1))))
enrich_lem_example = enrich_lem closed_breaker keyed_env (λ _. half) (λ t. t) a_ticket 0 []

prioritize_lem_example :
    (Mentions (codes "it is down") urgent_words → prioritize (codes "it is down") ≡ urgent)
    × (¬ (Mentions (codes "it is down") urgent_words)
        → (Mentions (codes "it is down") high_words → prioritize (codes "it is down") ≡ high)
          × (¬ (Mentions (codes "it is down") high_words)
              → (Mentions (codes "it is down") low_words → prioritize (codes "it is down") ≡ low)
                × (¬ (Mentions (codes "it is down") low_words)
                    → prioritize (codes "it is down") ≡ medium)))
prioritize_lem_example = prioritize_lem (codes "it is down")

a_db-HasReferences : HasReferences a_db
unfolding count_rows text_eq
a_db-HasReferences = record { owned = (omega arith, tt); named = tt }

prune-HasReferences_example : HasReferences (prune default_env 999999999999 a_db).1
prune-HasReferences_example = prune-HasReferences default_env 999999999999 a_db a_db-HasReferences

sweep_keeps_open_example :
    let after =
      (sweep default_env true 999999999999 (record { stopped = false; running = false }) a_db).1 in
    (select_rows (λ r. is_due r.status) after.outbox_messages
      ≡ select_rows (λ r. is_due r.status) a_db.outbox_messages)
    × (select_rows (λ r. is_unresolved r.status) after.dead_letters
        ≡ select_rows (λ r. is_unresolved r.status) a_db.dead_letters)
    × (select_rows is_open_key after.idempotency_keys
        ≡ select_rows is_open_key a_db.idempotency_keys)
    × (select_rows is_open_ticket after.tickets ≡ select_rows is_open_ticket a_db.tickets)
sweep_keeps_open_example =
    sweep_keeps_open default_env true 999999999999 (record { stopped = false; running = false })
      a_db
