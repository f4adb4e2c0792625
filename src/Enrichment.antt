-- ===== src/Enrichment.antt =====
-- enrichment: the enricher that the pipeline is bound to, its retries over the circuit breaker, and the
-- rule-based classifier that it falls back on. The Mistral client and the opossum breaker (both
-- third-party) are one record of parameters over the breaker's state `B`.
pub mod Fallback
pub mod Laws
pub mod Words
pub mod Response
pub mod Client
use triage_engine.Prelude.{
  ℕ, ◌+◌, Text, Bool, true, false, not, ◌||◌, List, [], ◌∷◌, Option, none, some, is_some, ltb, leb,
  if◌then◌else◌, zero, suc,
}
use triage_engine.Config.{EnvVars}
use triage_engine.Backoff.{Random, backoff_with_jitter}
use triage_engine.Entities.{
  TicketEntity, EnrichmentStatus, EnrichmentSource, Metric, enrichment_ai_success,
  enrichment_ai_failed, enrichment_fallback_degraded,
}
use triage_engine.Pipeline.Processor.{EnrichmentOutcome}
use triage_engine.Enrichment.Fallback.{LlmEnrichment, classify}

-- A client is made for a key that is set and not empty.
abbrev pub is_configured : Option Text → Bool
is_configured none = false
is_configured (some []) = false
is_configured (some (c ∷ key)) = true

-- `breaker.fire(ticket)`, `none` being its rejection, and `breaker.isOpen`.
pub record BreakerOps (B : Type 0) : Type 0 where
  pub fire : TicketEntity → B → Option LlmEnrichment × B
  pub is_open : B → Bool

-- How the retry loop ends: its result, the breaker's state, and the delays that it slept, oldest first.
pub record Called (B : Type 0) : Type 0 where
  pub result : Option LlmEnrichment
  pub breaker : B
  pub slept : List ℕ

abbrev pub outcome_of : EnrichmentStatus → EnrichmentSource → LlmEnrichment → EnrichmentOutcome
outcome_of status source result = record {
  status = status;
  source = source;
  category = result.category;
  priority = result.priority;
  summary = result.summary;
  confidence = result.confidence;
}

module _ {B : Type 0} (ops : BreakerOps B) (env : EnvVars) (random : ℕ → Random)
    (lower : Text → Text) where
  -- The loop from `attempt` on, with `left` attempts after it. Its error is thrown on once the circuit
  -- is open or no attempt is left.
  unfoldable pub call_with_retry : (left attempt : ℕ) → TicketEntity → B → Called B
  call_with_retry zero attempt ticket b =
      let answer = ops.fire ticket b in record { result = answer.0; breaker = answer.1; slept = [] }
  call_with_retry (suc left) attempt ticket b =
      let answer = ops.fire ticket b in
      let rest = call_with_retry left (attempt + 1) ticket answer.1 in
      if is_some answer.0 || ops.is_open answer.1
      then record { result = answer.0; breaker = answer.1; slept = [] }
      else record rest {
        slept = backoff_with_jitter attempt 500 (some 5000) (random attempt) ∷ rest.slept;
      }

  unfoldable pub degrade : TicketEntity → B → List Metric → EnrichmentOutcome × B × List Metric
  degrade ticket b metrics = (
    outcome_of EnrichmentStatus.degraded EnrichmentSource.fallback (classify lower ticket),
    b,
    enrichment_fallback_degraded ∷ metrics,
  )

  unfoldable pub after_call :
      TicketEntity → Called B → List Metric → EnrichmentOutcome × B × List Metric
  unfolding degrade
  after_call ticket called metrics = elim called.result [
    | none ↦ degrade ticket called.breaker (enrichment_ai_failed ∷ metrics)
    | some result ↦ (
      outcome_of EnrichmentStatus.enriched EnrichmentSource.ai result,
      called.breaker,
      enrichment_ai_success ∷ metrics,
    )
  ]

  -- Without a key, or while the circuit is open, no call is made.
  unfoldable pub enrich : TicketEntity → B → List Metric → EnrichmentOutcome × B × List Metric
  unfolding degrade call_with_retry after_call
  enrich ticket b metrics =
      if not (is_configured env.mistral_api_key)
      then degrade ticket b metrics
      else if ops.is_open b
      then degrade ticket b metrics
      else after_call ticket (call_with_retry env.mistral_max_retries 1 ticket b) metrics
