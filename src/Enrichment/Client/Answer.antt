-- ===== src/Enrichment/Client/Answer.antt =====
-- An answer that keeps to the prompt is accepted.
use triage_engine.Prelude.{
  ◌≤◌, Text, codes, text_eq, true, [], ◌∷◌, Option, some, length, ◌≡◌, ◌≢◌, all, ltb, refl, arith,
  ap, trim, trim_fixes, IsTrimmed, valid, sym,
}
use triage_engine.Config.{EnvVars}
use triage_engine.Json.{get_field, Json, str, num, end, field, obj}
use triage_engine.Entities.{
  category_name, priority_name, TicketEntity, TicketCategory, billing, technical, account,
  feature_request, complaint, other, TicketPriority, low, medium, high, urgent,
}
use triage_engine.Enrichment.{is_configured}
use triage_engine.Enrichment.Fallback.{LlmEnrichment}
use triage_engine.Enrichment.Response.{parse_response}
use triage_engine.Enrichment.Response.Trust.{Describes, IsUnit, parse_response_iff}
use triage_engine.Enrichment.Client.{
  ChatRequest, Completion, responded, text, classified, parse_and_validate, conclude, classify,
  extract_content, chat_request,
}

-- A result as the prompt asks for it.
abbrev pub answer_of : LlmEnrichment → Json
answer_of result = obj (
    field (codes "category") (str (category_name result.category)) (
      field (codes "priority") (str (priority_name result.priority)) (
        field (codes "summary") (str result.summary)
          (field (codes "confidence") (num result.confidence) end))))

-- A trimmed summary of 1 to 280 units and a confidence between 0 and 1.
pub record IsAnswer (result : LlmEnrichment) : Type 0 where
  pub trimmed : IsTrimmed result.summary
  pub not_empty : 1 ≤ length result.summary
  pub not_long : length result.summary ≤ 280
  pub is_unit : IsUnit result.confidence

-- `toUpperCase` leaves a text alone in which all units come before the letter a.
abbrev pub KeepsUpper : (upper : Text → Text) → Type 0
KeepsUpper upper = (t : Text) → all (λ c. ltb c 97) t ≡ true → upper t ≡ t

abbrev pub says : Text → Completion
says content = responded (record { choices = some (record { message = some (text content) } ∷ []) })

module _ (upper : Text → Text) (keeps : KeepsUpper upper) where
  category_kept : (c : TicketCategory) → trim (upper (category_name c)) ≡ category_name c
  unfolding trim
  category_kept billing = ap trim (keeps (codes "BILLING") refl)
  category_kept technical = ap trim (keeps (codes "TECHNICAL") refl)
  category_kept account = ap trim (keeps (codes "ACCOUNT") refl)
  category_kept feature_request = ap trim (keeps (codes "FEATURE_REQUEST") refl)
  category_kept complaint = ap trim (keeps (codes "COMPLAINT") refl)
  category_kept other = ap trim (keeps (codes "OTHER") refl)

  priority_kept : (p : TicketPriority) → trim (upper (priority_name p)) ≡ priority_name p
  unfolding trim
  priority_kept low = ap trim (keeps (codes "LOW") refl)
  priority_kept medium = ap trim (keeps (codes "MEDIUM") refl)
  priority_kept high = ap trim (keeps (codes "HIGH") refl)
  priority_kept urgent = ap trim (keeps (codes "URGENT") refl)

  answer-Describes :
      (result : LlmEnrichment) → IsAnswer result → Describes upper (answer_of result) result
  unfolding get_field text_eq
  answer-Describes result v = record {
    fields = _;
    category = category_name result.category;
    priority = priority_name result.priority;
    summary = result.summary;
    is_object = refl;
    has_category = refl;
    has_priority = refl;
    has_summary = refl;
    has_confidence = refl;
    names_category = category_kept result.category;
    names_priority = priority_kept result.priority;
    is_trimmed = sym (trim_fixes result.summary v.trimmed);
    not_empty = v.not_empty;
    not_long = v.not_long;
    is_unit = v.is_unit;
  }

  module _ (parse_json : Text → Option Json) (message : Json → Option Text → Text) where
    -- The first text of the response is what is parsed.
    conclude-content :
        (t : Text) (json : Json) (result : LlmEnrichment)
        → t ≢ []
        → parse_json t ≡ some json
        → parse_response upper json ≡ valid result
        → conclude upper parse_json message (says t) ≡ classified result
    unfolding conclude parse_and_validate extract_content
    conclude-content [] json result ne same accepted = absurd (ne refl)
    conclude-content (c ∷ cs) json result ne same accepted = ground (arith, same, accepted)

    -- With a key set, a model that answers by a text that is not empty and parses as any result that
    -- the prompt allows has that result accepted as it is, by one call of the SDK.
    pub classify-answer_of :
        {S : Type 0} (complete : ChatRequest → S → Completion × S) (stringify : Json → Text)
        (env : EnvVars) (ticket : TicketEntity) (s : S) (content : Text) (result : LlmEnrichment)
        → IsAnswer result
        → is_configured env.mistral_api_key ≡ true
        → content ≢ []
        → parse_json content ≡ some (answer_of result)
        → (complete (chat_request stringify env ticket) s).0 ≡ says content
        → classify upper parse_json message complete stringify env ticket s
          ≡ (classified result, (complete (chat_request stringify env ticket) s).1)
    unfolding classify
    classify-answer_of complete stringify env ticket s content result v set ne parsed answered =
        let accepted =
          (parse_response_iff upper (answer_of result) result).1 (answer-Describes result v) in
        let concluded = conclude-content content (answer_of result) result ne parsed accepted in
        ground (arith, set, answered, concluded)
