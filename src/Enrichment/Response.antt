-- ===== src/Enrichment/Response.antt =====
-- enrichment/llm-response.schema.ts with the names of tickets/ticket.enums.ts: what is accepted of a
-- model's answer. `toUpperCase` is the parameter `upper`; a number of the parsed answer is the exact
-- value of its double.
pub mod Trust
use triage_engine.Prelude.{
  ◌^◌, Text, codes, text_eq, Bool, true, not, ◌&&◌, ◌||◌, ◌==◌, leb, List, [], ◌∷◌, Option, none,
  some, if◌then◌else◌, length, trim, Checked, valid, find_named, invalid, missing,
}
use triage_engine.Json.{get_field, Json, str, num, obj, Decimal, Fields, end, field}
use triage_engine.Entities.{
  category_name, priority_name, TicketCategory, billing, technical, account, feature_request,
  complaint, other, TicketPriority, low, medium, high, urgent,
}
use triage_engine.Enrichment.Fallback.{LlmEnrichment}

abbrev pub categories : List TicketCategory
categories = billing ∷ technical ∷ account ∷ feature_request ∷ complaint ∷ other ∷ []

abbrev pub priorities : List TicketPriority
priorities = low ∷ medium ∷ high ∷ urgent ∷ []

-- upperEnum
unfoldable pub parse_enum {ℓ} :
    {A : Type ℓ} → (upper : Text → Text) (name : A → Text) → List A → Option Json → Option A
unfolding find_named
parse_enum upper name members (some (str text)) = find_named name members (trim (upper text))
parse_enum upper name members _ = none

unfoldable pub parse_summary : Option Json → Option Text
parse_summary (some (str text)) =
    let cut = trim text in if leb 1 (length cut) && leb (length cut) 280 then some cut else none
parse_summary _ = none

-- From 0 to 1: minus zero is in.
unfoldable pub in_unit : Decimal → Bool
in_unit d = (not d.negative || d.digits == 0) && leb d.digits (10 ^ d.scale)

unfoldable pub parse_confidence : Option Json → Option Decimal
unfolding in_unit
parse_confidence (some (num d)) = if in_unit d then some d else none
parse_confidence _ = none

-- z.object: all fields, or the issues of those that are not valid, in the schema's order.
abbrev pub collect :
    Option TicketCategory
    → Option TicketPriority
    → Option Text
    → Option Decimal
    → Checked LlmEnrichment
collect (some c) (some p) (some s) (some d) =
    valid (record { category = c; priority = p; summary = s; confidence = d })
collect c p s d = invalid (
    missing (codes "category") c (
      missing (codes "priority") p
        (missing (codes "summary") s (missing (codes "confidence") d []))))

-- llmEnrichmentSchema.safeParse(json)
unfoldable pub parse_response : (upper : Text → Text) → Json → Checked LlmEnrichment
unfolding get_field parse_enum parse_summary parse_confidence
parse_response upper (obj fields) =
    collect (parse_enum upper category_name categories (get_field (codes "category") fields))
      (parse_enum upper priority_name priorities (get_field (codes "priority") fields))
      (parse_summary (get_field (codes "summary") fields))
      (parse_confidence (get_field (codes "confidence") fields))
parse_response upper _ = invalid (none ∷ [])
