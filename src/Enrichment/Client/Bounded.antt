-- ===== src/Enrichment/Client/Bounded.antt =====
-- What the enricher hands on, over a breaker that passes on what the client returns.
use triage_engine.Prelude.{
  ℕ, ◌+◌, ◌≤◌, Text, ◌||◌, List, Option, some, is_some, length, ◌≡◌, inl, inr, refl, arith,
  length-take, Bool-cases, Option-cases, zero, suc, trim-IsTrimOf, subst, sym, Checked-cases,
  IsTrimmed,
}
use triage_engine.Config.{EnvVars}
use triage_engine.Backoff.{Random}
use triage_engine.Json.{Json, Decimal}
use triage_engine.Entities.{TicketEntity, Metric, EnrichmentStatus, EnrichmentSource}
use triage_engine.Pipeline.Processor.{EnrichmentOutcome}
use triage_engine.Enrichment.{
  is_configured, BreakerOps, call_with_retry, degrade, after_call, enrich, outcome_of, Called,
}
use triage_engine.Enrichment.Fallback
use triage_engine.Enrichment.Fallback.{LlmEnrichment}
use triage_engine.Enrichment.Response.{parse_response}
use triage_engine.Enrichment.Response.Trust.{IsUnit, Describes, parse_response_iff}
use triage_engine.Enrichment.Client.{
  Completion, responded, threw, classified, parse_and_validate, conclude, extract_content,
}
use triage_engine.Enrichment.Client.Answer.{IsAnswer}

-- At most 280 units of summary, and a confidence between 0 and 1.
pub record IsBounded (summary : Text) (confidence : Decimal) : Type 0 where
  pub not_long : length summary ≤ 280
  pub is_unit : IsUnit confidence

abbrev OfOutcome : EnrichmentOutcome → Type 0
OfOutcome outcome = IsBounded outcome.summary outcome.confidence

module _ (upper : Text → Text) (parse_json : Text → Option Json)
    (message : Json → Option Text → Text) where
  Describes-IsAnswer :
      (json : Json) (result : LlmEnrichment) → Describes upper json result → IsAnswer result
  Describes-IsAnswer json result v =
      let (before, after, same, spaces, spaces', trimmed) = trim-IsTrimOf v.summary in
      record {
        trimmed = subst IsTrimmed (sym v.is_trimmed) trimmed;
        not_empty = v.not_empty;
        not_long = v.not_long;
        is_unit = v.is_unit;
      }

  parsed-IsAnswer :
      (content : Text) (result : LlmEnrichment)
      → parse_and_validate upper parse_json message content ≡ classified result
      → IsAnswer result
  unfolding parse_and_validate
  parsed-IsAnswer content result e = elim (Option-cases (parse_json content)) [
    | inl bad ↦ absurd (ground (arith, e, bad))
    | inr (json, good) ↦ elim (Checked-cases (parse_response upper json)) [
      | inr (issues, refused) ↦ absurd (ground (arith, e, good, refused))
      | inl (r, accepted) ↦
          let same : r ≡ result = ground (arith, e, good, accepted) in
          subst IsAnswer same
            (Describes-IsAnswer json r ((parse_response_iff upper json r).0 accepted))
    ]
  ]

  -- Whatever the SDK does, a result of the client has a trimmed summary of 1 to 280 units and a
  -- confidence between 0 and 1.
  pub conclude-IsAnswer :
      (completion : Completion) (result : LlmEnrichment)
      → conclude upper parse_json message completion ≡ classified result
      → IsAnswer result
  unfolding conclude
  conclude-IsAnswer (threw why) result e = absurd (ground (arith, e))
  conclude-IsAnswer (responded response) result e = elim (Option-cases (extract_content response)) [
    | inl empty ↦ absurd (ground (arith, e, empty))
    | inr (content, got) ↦ parsed-IsAnswer content result (ground (arith, e, got))
  ]

  -- The breaker resolves with nothing but what the client has returned for some completion.
  abbrev pub PassesOn : {B : Type 0} → BreakerOps B → Type 0
  PassesOn {B} ops =
      (ticket : TicketEntity) (b : B) (result : LlmEnrichment)
      → (ops.fire ticket b).0 ≡ some result
      → (completion : Completion) × (conclude upper parse_json message completion
          ≡ classified result)

  module _ {B : Type 0} (ops : BreakerOps B) (env : EnvVars) (random : ℕ → Random)
      (lower : Text → Text) (passes : PassesOn ops) where
    called-IsAnswer :
        (left attempt : ℕ) (ticket : TicketEntity) (b : B) (result : LlmEnrichment)
        → (call_with_retry ops env random lower left attempt ticket b).result ≡ some result
        → IsAnswer result
    unfolding call_with_retry
    called-IsAnswer zero attempt ticket b result e =
        let (completion, same) = passes ticket b result e in
        conclude-IsAnswer completion result same
    called-IsAnswer (suc left) attempt ticket b result e =
        let answer = ops.fire ticket b in
        elim (Bool-cases (is_some answer.0 || ops.is_open answer.1)) [
          | inl stops ↦
              let got : answer.0 ≡ some result = ground (arith, e, stops) in
              let (completion, same) = passes ticket b result got in
              conclude-IsAnswer completion result same
          | inr goes_on ↦
              called-IsAnswer left (attempt + 1) ticket answer.1 result (ground (arith, e, goes_on))
        ]

    classified-IsBounded :
        (ticket : TicketEntity)
        → let result = Fallback.classify lower ticket in IsBounded result.summary result.confidence
    unfolding Fallback.classify
    classified-IsBounded ticket =
        let cut = length-take 120 ticket.subject in
        record { not_long = omega (arith, cut); is_unit = (inl refl, omega arith) }

    after_call-IsBounded :
        (ticket : TicketEntity) (called : Called B) (metrics : List Metric)
        → ((result : LlmEnrichment) → called.result ≡ some result → IsAnswer result)
        → let outcome = (after_call ops env random lower ticket called metrics).0 in
          IsBounded outcome.summary outcome.confidence
    unfolding after_call degrade
    after_call-IsBounded ticket called metrics answers = elim (Option-cases called.result) [
      | inl gave_up ↦
          let same : (after_call ops env random lower ticket called metrics).0
              ≡ outcome_of EnrichmentStatus.degraded EnrichmentSource.fallback
                  (Fallback.classify lower ticket) =
            ground (arith, gave_up) in
          subst OfOutcome (sym same) (classified-IsBounded ticket)
      | inr (result, got) ↦
          let same : (after_call ops env random lower ticket called metrics).0
              ≡ outcome_of EnrichmentStatus.enriched EnrichmentSource.ai result =
            ground (arith, got) in
          let v = answers result got in
          subst OfOutcome (sym same) (record { not_long = v.not_long; is_unit = v.is_unit })
    ]

    -- The outcome of any ticket, whatever the model and the breaker do: a summary of at most 280 units
    -- and a confidence between 0 and 1.
    pub enrich-IsBounded :
        (ticket : TicketEntity) (b : B) (metrics : List Metric)
        → let outcome = (enrich ops env random lower ticket b metrics).0 in
          IsBounded outcome.summary outcome.confidence
    unfolding enrich degrade after_call
    enrich-IsBounded ticket b metrics =
        let fallback = classified-IsBounded ticket in
        elim (Bool-cases (is_configured env.mistral_api_key)) [
          | inr unset ↦ rw unset fallback
          | inl set ↦ elim (Bool-cases (ops.is_open b)) [
            | inl opened ↦ rw (set, opened) fallback
            | inr closed ↦
                rw (set, closed)
                  (after_call-IsBounded ticket
                    (call_with_retry ops env random lower env.mistral_max_retries 1 ticket b)
                    metrics (called-IsAnswer env.mistral_max_retries 1 ticket b))
          ]
        ]
