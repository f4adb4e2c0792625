-- ===== src/Tests/Model.antt =====
-- The model's client and what is accepted of its answers, at concrete inputs.
use triage_engine.Prelude.{
  ℕ, ◌+◌, is_space, ap, text_eq, codes, false, [], some, ◌≡◌, ◌↔◌, refl, inl, arith, valid, trim,
}
use triage_engine.Config.{default_env, EnvVars}
use triage_engine.Json.{Json, str, num, obj, end, field}
use triage_engine.Entities.{TicketEntity, billing, urgent}
use triage_engine.Enrichment.{enrich, BreakerOps}
use triage_engine.Enrichment.Fallback.{LlmEnrichment}
use triage_engine.Enrichment.Response.{parse_response}
use triage_engine.Enrichment.Response.Trust.{Describes, parse_response_iff}
use triage_engine.Enrichment.Client.{ChatRequest, Completion, classify, classified, conclude}
use triage_engine.Enrichment.Client.Answer.{answer_of, IsAnswer, says, classify-answer_of}
use triage_engine.Enrichment.Client.Bounded.{enrich-IsBounded, IsBounded, PassesOn}
use triage_engine.Events.Insert.{new_ticket}
use triage_engine.Tests.{half, sample_event, sample_draws}

abbrev a_ticket : TicketEntity
a_ticket = new_ticket sample_event sample_draws

abbrev a_result : LlmEnrichment
a_result = record {
  category = billing;
  priority = urgent;
  summary = codes "late refund";
  confidence = record { negative = false; digits = 95; scale = 2 };
}

abbrev loose_answer : Json
loose_answer = obj (
    field (codes "confidence") (num a_result.confidence) (
      field (codes "category") (str (codes " BILLING")) (
        field (codes "priority") (str (codes "URGENT "))
          (field (codes "summary") (str (codes "  late refund ")) end))))

parse_response_iff_example :
    (parse_response (λ t. t) loose_answer ≡ valid a_result)
    ↔ Describes (λ t. t) loose_answer a_result
parse_response_iff_example = parse_response_iff (λ t. t) loose_answer a_result

a_result-IsAnswer : IsAnswer a_result
unfolding is_space
a_result-IsAnswer = record {
  trimmed = (refl, refl);
  not_empty = omega arith;
  not_long = omega arith;
  is_unit = (inl refl, omega arith);
}

abbrev keyed_env : EnvVars
keyed_env = record default_env { mistral_api_key = some (codes "k") }

abbrev answers : ChatRequest → ℕ → Completion × ℕ
answers request n = (says (codes "{}"), n + 1)

classify-answer_of_example :
    classify
      (λ t. t)
      (λ t. some (answer_of a_result))
      (λ json issue. [])
      answers
      (λ json. [])
      keyed_env
      a_ticket
      0
    ≡ (classified a_result, 1)
classify-answer_of_example =
    classify-answer_of (λ t. t) (λ t e. refl) (λ t. some (answer_of a_result)) (λ json issue. [])
      answers (λ json. []) keyed_env a_ticket 0 (codes "{}") a_result a_result-IsAnswer refl
      (λ e. ground (arith, e)) refl refl

-- A breaker that lets every call through.
abbrev open_line : BreakerOps ℕ
open_line = record { fire = λ ticket n. (some a_result, n + 1); is_open = λ n. false }

open_line-PassesOn : PassesOn (λ t. t) (λ t. some (answer_of a_result)) (λ json issue. []) open_line
unfolding conclude text_eq trim
open_line-PassesOn ticket b result e =
    let same : a_result ≡ result = ground (arith, e) in (says (codes "{}"), ap classified same)

enrich-IsBounded_example :
    let outcome = (enrich open_line keyed_env (λ _. half) (λ t. t) a_ticket 0 []).0 in
    IsBounded outcome.summary outcome.confidence
enrich-IsBounded_example =
    enrich-IsBounded (λ t. t) (λ t. some (answer_of a_result)) (λ json issue. []) open_line
      keyed_env (λ _. half) (λ t. t) open_line-PassesOn a_ticket 0 []
