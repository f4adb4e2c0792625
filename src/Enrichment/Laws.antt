-- ===== src/Enrichment/Laws.antt =====
-- What the pipeline relies on of its enricher.
use triage_engine.Prelude.{
  ℕ, ◌+◌, ◌≤◌, Text, true, false, ◌||◌, ◌&&◌, not, List, Option, none, some, is_some, length, All,
  ◌≡◌, refl, sym, subst, ap, ◌⊎◌, inl, inr, arith, Bool-cases, Option-cases, zero, suc,
}
use triage_engine.Config.{EnvVars}
use triage_engine.Backoff.{Random}
use triage_engine.Backoff.Bounds.{backoff_with_jitter_bounds}
use triage_engine.Entities.{TicketEntity, EnrichmentStatus, EnrichmentSource, Metric}
use triage_engine.Enrichment.{
  is_configured, BreakerOps, Called, call_with_retry, degrade, after_call, enrich, outcome_of,
}
use triage_engine.Pipeline.Processor.{EnrichmentOutcome}
use triage_engine.Enrichment.Fallback.{LlmEnrichment, classify}

-- Calls of the model through the breaker, one after another: each but the last fails and leaves the
-- circuit closed.
pub data Calls {B : Type 0} (ops : BreakerOps B) (ticket : TicketEntity)
    : (b : B) → ℕ → Option LlmEnrichment → (b' : B) → Type 0 where
  ends :
      {b : B} {answer : Option LlmEnrichment} {b' : B}
      → ops.fire ticket b ≡ (answer, b')
      → Calls ops ticket b 1 answer b'
  again :
      {b : B} {n : ℕ} {answer : Option LlmEnrichment} {b' : B}
      → (ops.fire ticket b).0 ≡ none
      → ops.is_open (ops.fire ticket b).1 ≡ false
      → Calls ops ticket (ops.fire ticket b).1 n answer b'
      → Calls ops ticket b (suc n) answer b'

-- The outcome gives the result, as of this status and source.
pub record Reports (end_status : EnrichmentStatus) (by : EnrichmentSource) (result : LlmEnrichment)
    (outcome : EnrichmentOutcome) : Type 0 where
  pub status : outcome.status ≡ end_status
  pub source : outcome.source ≡ by
  pub category : outcome.category ≡ result.category
  pub priority : outcome.priority ≡ result.priority
  pub summary : outcome.summary ≡ result.summary
  pub confidence : outcome.confidence ≡ result.confidence

outcome_of-Reports :
    {status : EnrichmentStatus} {source : EnrichmentSource} {result : LlmEnrichment}
    → Reports status source result (outcome_of status source result)
outcome_of-Reports = record {
  status = refl;
  source = refl;
  category = refl;
  priority = refl;
  summary = refl;
  confidence = refl;
}

module _ {B : Type 0} (ops : BreakerOps B) (env : EnvVars) (random : ℕ → Random)
    (lower : Text → Text) where
  -- The loop sleeps no more often than it has attempts left, each time five seconds at most. It
  -- gives up only where the circuit is open or it has slept before every attempt left.
  pub call_with_retry_lem :
      (left attempt : ℕ) (ticket : TicketEntity) (b : B)
      → let called = call_with_retry ops env random lower left attempt ticket b in
        (length called.slept ≤ left)
        × All (λ delay. delay ≤ 5000) called.slept
        × (called.result ≡ none
            → (ops.is_open called.breaker ≡ true) ⊎ (length called.slept ≡ left))
  unfolding call_with_retry
  call_with_retry_lem zero attempt ticket b = (omega arith, tt, λ e. inr refl)
  call_with_retry_lem (suc left) attempt ticket b =
      let answer = ops.fire ticket b in
      let lem = call_with_retry_lem left (attempt + 1) ticket answer.1 in
      elim (Bool-cases (is_some answer.0 || ops.is_open answer.1)) [
        | inl stops ↦ rw stops (omega arith, tt, λ e. inl (ground (arith, stops, e)))
        | inr goes_on ↦ rw goes_on (
          omega (arith, lem.0),
          ((backoff_with_jitter_bounds attempt 500 (some 5000) (random attempt)).2, lem.1),
          λ e. elim (lem.2 e) [ inl opened ↦ inl opened | inr used ↦ inr (ap suc used) ],
        )
      ]

  call_with_retry-Calls :
      (left attempt : ℕ) (ticket : TicketEntity) (b : B)
      → let called = call_with_retry ops env random lower left attempt ticket b in
        (n : ℕ) × Calls ops ticket b n called.result called.breaker
        × (n ≤ left + 1)
        × (called.result ≡ none → (ops.is_open called.breaker ≡ true) ⊎ (n ≡ left + 1))
  unfolding call_with_retry
  call_with_retry-Calls zero attempt ticket b = (1, ends refl, omega arith, λ e. inr refl)
  call_with_retry-Calls (suc left) attempt ticket b =
      let answer = ops.fire ticket b in
      elim (Bool-cases (is_some answer.0 || ops.is_open answer.1)) [
        | inl stops ↦ rw stops (1, ends refl, omega arith, λ e. inl (ground (arith, stops, e)))
        | inr goes_on ↦
            let (n, calls, few, why) = call_with_retry-Calls left (attempt + 1) ticket answer.1 in
            rw goes_on (
              suc n,
              again (ground (arith, goes_on)) (ground (arith, goes_on)) calls,
              omega (arith, few),
              λ e. elim (why e) [ inl opened ↦ inl opened | inr used ↦ inr (omega (arith, used)) ],
            )
      ]

  enrich_uncalled :
      (ticket : TicketEntity) (b : B) (metrics : List Metric)
      → is_configured env.mistral_api_key && not (ops.is_open b) ≡ false
      → enrich ops env random lower ticket b metrics ≡ degrade ops env random lower ticket b metrics
  unfolding enrich
  enrich_uncalled ticket b metrics h = ground (arith, h)

  enrich_called :
      (ticket : TicketEntity) (b : B) (metrics : List Metric)
      → is_configured env.mistral_api_key ≡ true
      → ops.is_open b ≡ false
      → enrich ops env random lower ticket b metrics
        ≡ after_call ops env random lower ticket
            (call_with_retry ops env random lower env.mistral_max_retries 1 ticket b)
            metrics
  unfolding enrich
  enrich_called ticket b metrics set closed = ground (arith, set, closed)

  degrade-Reports :
      (ticket : TicketEntity) (b : B) (metrics : List Metric)
      → Reports EnrichmentStatus.degraded EnrichmentSource.fallback
          (classify lower ticket)
          (degrade ops env random lower ticket b metrics).0
  unfolding degrade
  degrade-Reports ticket b metrics = outcome_of-Reports

  after_call-breaker :
      (ticket : TicketEntity) (called : Called B) (metrics : List Metric)
      → (after_call ops env random lower ticket called metrics).1 ≡ called.breaker
  unfolding after_call degrade
  after_call-breaker ticket called metrics = elim (Option-cases called.result) [
    | inl gave_up ↦ rw gave_up refl
    | inr (result, got) ↦ rw got refl
  ]

  after_call-some :
      (ticket : TicketEntity) (called : Called B) (metrics : List Metric) (result : LlmEnrichment)
      → called.result ≡ some result
      → Reports EnrichmentStatus.enriched EnrichmentSource.ai result
          (after_call ops env random lower ticket called metrics).0
  unfolding after_call
  after_call-some ticket called metrics result got = rw got outcome_of-Reports

  after_call-none :
      (ticket : TicketEntity) (called : Called B) (metrics : List Metric)
      → called.result ≡ none
      → Reports EnrichmentStatus.degraded EnrichmentSource.fallback
          (classify lower ticket)
          (after_call ops env random lower ticket called metrics).0
  unfolding after_call degrade
  after_call-none ticket called metrics gave_up = rw gave_up outcome_of-Reports

  -- While no key is set or the circuit is open, a ticket is enriched by the rules: the outcome is
  -- DEGRADED with the classifier's result, and no call is made. Else calls are made, one more than
  -- the retries at most, each but the last failing with the circuit closed after it. Where the last
  -- one returns a result, the outcome is ENRICHED with that result; where it fails, which is with the
  -- circuit open or no attempt left, the outcome is DEGRADED with the classifier's result.
  pub enrich_lem :
      (ticket : TicketEntity) (b : B) (metrics : List Metric)
      → let (outcome, b', metrics') = enrich ops env random lower ticket b metrics in
        ((is_configured env.mistral_api_key && not (ops.is_open b) ≡ false)
          → Reports EnrichmentStatus.degraded EnrichmentSource.fallback
              (classify lower ticket)
              outcome
            × (b' ≡ b))
        × ((is_configured env.mistral_api_key ≡ true)
            → (ops.is_open b ≡ false)
            → (n : ℕ) × (answer : Option LlmEnrichment) × Calls ops ticket b n answer b'
              × (n ≤ env.mistral_max_retries + 1)
              × ((result : LlmEnrichment)
                  → answer ≡ some result
                  → Reports EnrichmentStatus.enriched EnrichmentSource.ai result outcome)
              × (answer ≡ none
                  → Reports EnrichmentStatus.degraded EnrichmentSource.fallback
                      (classify lower ticket)
                      outcome
                    × ((ops.is_open b' ≡ true) ⊎ (n ≡ env.mistral_max_retries + 1))))
  unfolding degrade
  enrich_lem ticket b metrics = (
    λ h. rw (enrich_uncalled ticket b metrics h) (degrade-Reports ticket b metrics, refl),
    λ set closed.
        let called = call_with_retry ops env random lower env.mistral_max_retries 1 ticket b in
        let (n, calls, few, why) = call_with_retry-Calls env.mistral_max_retries 1 ticket b in
        let same = enrich_called ticket b metrics set closed in
        rw same (
          n,
          called.result,
          subst (Calls ops ticket b n called.result)
              (sym (after_call-breaker ticket called metrics)) calls,
          few,
          λ result got. after_call-some ticket called metrics result got,
          λ gave_up. (
            after_call-none ticket called metrics gave_up,
            rw (after_call-breaker ticket called metrics) (why gave_up),
          ),
        ),
  )
