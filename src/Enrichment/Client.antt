-- ===== src/Enrichment/Client.antt =====
-- enrichment/mistral.client.ts, prompts.ts, errors.ts and mistral.circuit-breaker.ts: one call of the
-- model. The SDK, `JSON.parse`, `JSON.stringify`, `toUpperCase` and zod's wording of an issue are parameters.
pub mod Answer
pub mod Bounded
use triage_engine.Prelude.{
  join, newline, ℕ, Text, codes, not, List, [], ◌∷◌, ◌++◌, Option, none, some, if◌then◌else◌, map,
  is_empty, valid, invalid, path_text, Bool, true, false,
}
use triage_engine.Config.{EnvVars}
use triage_engine.Json.{Json, str, end, field, obj, Decimal}
use triage_engine.Entities.{category_name, priority_name, TicketEntity}
use triage_engine.Enrichment.{is_configured}
use triage_engine.Enrichment.Fallback.{LlmEnrichment}
use triage_engine.Enrichment.Response.{parse_response, categories, priorities}

-- ENRICHMENT_SYSTEM_PROMPT, with CATEGORIES and PRIORITIES put in.
unfoldable pub system_prompt : Text
unfolding join
system_prompt = join newline (
    codes "You are a support-ticket triage assistant."
    ∷ codes "Classify the ticket and respond with a SINGLE JSON object and nothing else."
    ∷ []
    ∷ codes "The JSON object must have exactly these keys:"
    ∷ (codes "- \"category\": one of ["
        ++ join (codes ", ") (map category_name categories)
        ++ codes "]")
    ∷ (codes "- \"priority\": one of ["
        ++ join (codes ", ") (map priority_name priorities)
        ++ codes "]")
    ∷ codes "- \"summary\": a one-line summary, at most 280 characters"
    ∷ codes "- \"confidence\": a number between 0 and 1 reflecting your confidence"
    ∷ []
    ∷ codes "Use uppercase enum values exactly as listed. Do not add commentary or markdown."
    ∷ [])

-- A part of a chunked content: an object with a `text`, written out by `String()`, or anything else.
pub data Chunk : Type 0 where
  text_chunk : Text → Chunk
  other_chunk : Chunk

-- `response.choices?.[0]?.message?.content`, of any JSON type.
pub data Content : Type 0 where
  absent : Content
  text : Text → Content
  chunks : List Chunk → Content
  other_content : Content

pub record Choice : Type 0 where
  pub message : Option Content

pub record ChatResponse : Type 0 where
  pub choices : Option (List Choice)

-- What `chat.complete` is called with; the call is aborted after `timeout_ms`.
pub record ChatRequest : Type 0 where
  pub model : Text
  pub temperature : ℕ
  pub max_tokens : ℕ
  pub response_format : Text
  pub system : Text
  pub user : Text
  pub timeout_ms : ℕ

-- `chat.complete` returns a response or throws an error with a message: network, abort or status.
pub data Completion : Type 0 where
  responded : ChatResponse → Completion
  threw : Text → Completion

-- A result, or a TransientEnrichmentError with its message.
pub data Classified : Type 0 where
  classified : LlmEnrichment → Classified
  transient : Text → Classified

abbrev pub message_content : Option Content → Content
message_content none = absent
message_content (some content) = content

abbrev pub first_content : Option (List Choice) → Content
first_content none = absent
first_content (some []) = absent
first_content (some (choice ∷ choices)) = message_content choice.message

abbrev pub content_of : ChatResponse → Content
content_of response = first_content response.choices

abbrev pub chunk_text : Chunk → Text
chunk_text (text_chunk t) = t
chunk_text other_chunk = []

abbrev pub not_empty : Text → Option Text
not_empty [] = none
not_empty (c ∷ cs) = some (c ∷ cs)

-- `none` is the error of an empty content.
unfoldable pub extract_content : ChatResponse → Option Text
unfolding join
extract_content response = elim (content_of response) [
  | absent ↦ none
  | text t ↦ not_empty t
  | chunks parts ↦ not_empty (join [] (map chunk_text parts))
  | other_content ↦ none
]

module _ (stringify : Json → Text) (env : EnvVars) where
  -- JSON.stringify({ subject, body })
  unfoldable pub build_user_prompt : TicketEntity → Text
  build_user_prompt ticket = stringify (
      obj
        (field (codes "subject") (str ticket.subject) (field (codes "body") (str ticket.body) end)))

  unfoldable pub chat_request : TicketEntity → ChatRequest
  unfolding build_user_prompt
  chat_request ticket = record {
    model = env.mistral_model;
    temperature = 0;
    max_tokens = 300;
    response_format = codes "json_object";
    system = system_prompt;
    user = build_user_prompt ticket;
    timeout_ms = env.mistral_timeout_ms;
  }

module _ (upper : Text → Text) (parse_json : Text → Option Json)
    (message : Json → Option Text → Text) where
  -- One issue: its path and zod's message.
  abbrev pub issue_text : Json → Option Text → Text
  issue_text json issue = path_text issue ++ codes ": " ++ message json issue

  unfoldable pub parse_and_validate : (content : Text) → Classified
  unfolding join parse_response
  parse_and_validate content = elim (parse_json content) [
    | none ↦ transient (codes "mistral returned non-JSON content")
    | some json ↦ elim (parse_response upper json) [
      | valid result ↦ classified result
      | invalid issues ↦ transient (
          codes "mistral response failed validation: "
          ++ join (codes "; ") (map (issue_text json) issues))
    ]
  ]

  -- The `try` block after the call, with its `catch`.
  unfoldable pub conclude : Completion → Classified
  unfolding extract_content parse_and_validate
  conclude (threw why) = transient (codes "mistral call failed: " ++ why)
  conclude (responded response) = elim (extract_content response) [
    | none ↦ transient (codes "mistral returned empty content")
    | some content ↦ parse_and_validate content
  ]

  module _ {S : Type 0} (complete : ChatRequest → S → Completion × S) (stringify : Json → Text)
      (env : EnvVars) where
    unfoldable pub classify : TicketEntity → S → Classified × S
    unfolding chat_request conclude
    classify ticket s =
        let called = complete (chat_request stringify env ticket) s in
        if not (is_configured env.mistral_api_key)
        then (transient (codes "mistral API key not configured"), s)
        else (conclude called.0, called.1)

-- The options of the breaker.
pub record BreakerOptions : Type 0 where
  pub name : Text
  pub timeout : ℕ
  pub error_threshold_percentage : ℕ
  pub volume_threshold : ℕ
  pub reset_timeout : ℕ

abbrev pub breaker_options : EnvVars → BreakerOptions
breaker_options env = record {
  name = codes "mistral";
  timeout = env.circuit_breaker_timeout_ms;
  error_threshold_percentage = env.circuit_breaker_error_threshold_percent;
  volume_threshold = env.circuit_breaker_volume_threshold;
  reset_timeout = env.circuit_breaker_reset_ms;
}

pub data BreakerEvent : Type 0 where
  opens half_opens closes : BreakerEvent

-- What the listener of an event sets the gauge to.
abbrev pub gauge_value : BreakerEvent → Decimal
gauge_value opens = record { negative = false; digits = 1; scale = 0 }
gauge_value half_opens = record { negative = false; digits = 5; scale = 1 }
gauge_value closes = record { negative = false; digits = 0; scale = 0 }
