-- ===== src/Enrichment/Response/Trust.antt =====
-- What an accepted answer is, described without the schema.
use triage_engine.Prelude.{
  ◌^◌, ◌≤◌, Text, codes, List, [], ◌∷◌, Option, none, some, length, ◌≡◌, ◌↔◌, ◌⊎◌, inl, inr, refl,
  arith, true, false, Bool-cases, trim, valid, text_eq, text_eq_sound, find_named, sym, ap, ◌∙◌,
  subst,
}
use triage_engine.Json.{get_field, Json, str, num, obj, Fields, Decimal, arr, null, bool}
use triage_engine.Entities.{
  category_name, priority_name, TicketCategory, TicketPriority, billing, technical, account,
  feature_request, complaint, other, low, medium, high, urgent,
}
use triage_engine.Enrichment.Fallback.{LlmEnrichment}
use triage_engine.Enrichment.Response.{
  parse_enum, parse_summary, in_unit, parse_confidence, parse_response, categories, priorities,
  collect,
}

-- Between 0 and 1.
abbrev pub IsUnit : Decimal → Type 0
IsUnit d = ((d.negative ≡ false) ⊎ (d.digits ≡ 0)) × (d.digits ≤ 10 ^ d.scale)

-- The answer's fields name a category and a priority in any case, a summary of 1 to 280 units once
-- trimmed, and a confidence between 0 and 1; the result is made of these.
pub record Describes (upper : Text → Text) (json : Json) (result : LlmEnrichment) : Type 0 where
  pub fields : Fields
  pub category : Text
  pub priority : Text
  pub summary : Text
  pub is_object : json ≡ obj fields
  pub has_category : get_field (codes "category") fields ≡ some (str category)
  pub has_priority : get_field (codes "priority") fields ≡ some (str priority)
  pub has_summary : get_field (codes "summary") fields ≡ some (str summary)
  pub has_confidence : get_field (codes "confidence") fields ≡ some (num result.confidence)
  pub names_category : trim (upper category) ≡ category_name result.category
  pub names_priority : trim (upper priority) ≡ priority_name result.priority
  pub is_trimmed : result.summary ≡ trim summary
  pub not_empty : 1 ≤ length result.summary
  pub not_long : length result.summary ≤ 280
  pub is_unit : IsUnit result.confidence

find_named_sound {ℓ} :
    {A : Type ℓ} (name : A → Text) (members : List A) (text : Text) (a : A)
    → find_named name members text ≡ some a
    → text ≡ name a
unfolding find_named
find_named_sound name [] text a e = absurd (ground (arith, e))
find_named_sound name (b ∷ bs) text a e = elim (Bool-cases (text_eq (name b) text)) [
  | inl same ↦ sym (text_eq_sound (name b) text same) ∙ ap name (ground (arith, e, same))
  | inr differ ↦ find_named_sound name bs text a (ground (arith, e, differ))
]

parse_enum_sound {ℓ} :
    {A : Type ℓ} (upper : Text → Text) (name : A → Text) (members : List A) (o : Option Json)
    (a : A)
    → parse_enum upper name members o ≡ some a
    → (text : Text) × (o ≡ some (str text)) × (trim (upper text) ≡ name a)
unfolding parse_enum
parse_enum_sound upper name members none a e = absurd (ground (arith, e))
parse_enum_sound upper name members (some (str text)) a e =
    (text, refl, find_named_sound name members (trim (upper text)) a e)
parse_enum_sound upper name members (some _) a e = absurd (ground (arith, e))

parse_summary_sound :
    (o : Option Json) (cut : Text)
    → parse_summary o ≡ some cut
    → (text : Text) × (o ≡ some (str text))
      × (cut ≡ trim text)
      × (1 ≤ length cut)
      × (length cut ≤ 280)
unfolding parse_summary
parse_summary_sound none cut e = absurd (ground (arith, e))
parse_summary_sound (some (str text)) cut e =
    (text, refl, ground (arith, e), ground (arith, e), ground (arith, e))
parse_summary_sound (some _) cut e = absurd (ground (arith, e))

in_unit_iff : (d : Decimal) → (in_unit d ≡ true) ↔ IsUnit d
unfolding in_unit
in_unit_iff d = ground arith

parse_confidence_sound :
    (o : Option Json) (d : Decimal) → parse_confidence o ≡ some d → (o ≡ some (num d)) × IsUnit d
unfolding parse_confidence
parse_confidence_sound none d e = absurd (ground (arith, e))
parse_confidence_sound (some (num x)) d e = elim (Bool-cases (in_unit x)) [
  | inl fits ↦
      let same : x ≡ d = ground (arith, e, fits) in
      (ap (λ y. some (num y)) same, subst IsUnit same ((in_unit_iff x).0 fits))
  | inr not_in ↦ absurd (ground (arith, e, not_in))
]
parse_confidence_sound (some _) d e = absurd (ground (arith, e))

category_found :
    (c : TicketCategory) → find_named category_name categories (category_name c) ≡ some c
unfolding find_named text_eq
category_found billing = refl
category_found technical = refl
category_found account = refl
category_found feature_request = refl
category_found complaint = refl
category_found other = refl

priority_found :
    (p : TicketPriority) → find_named priority_name priorities (priority_name p) ≡ some p
unfolding find_named text_eq
priority_found low = refl
priority_found medium = refl
priority_found high = refl
priority_found urgent = refl

-- What `collect` accepts was there.
collect_sound :
    (c : Option TicketCategory) (p : Option TicketPriority) (s : Option Text) (d : Option Decimal)
    (result : LlmEnrichment)
    → collect c p s d ≡ valid result
    → (c ≡ some result.category)
      × (p ≡ some result.priority)
      × (s ≡ some result.summary)
      × (d ≡ some result.confidence)
collect_sound (some c) (some p) (some s) (some d) result e =
    (ground (arith, e), ground (arith, e), ground (arith, e), ground (arith, e))
collect_sound none p s d result e = absurd (ground (arith, e))
collect_sound (some c) none s d result e = absurd (ground (arith, e))
collect_sound (some c) (some p) none d result e = absurd (ground (arith, e))
collect_sound (some c) (some p) (some s) none result e = absurd (ground (arith, e))

response-Describes :
    (upper : Text → Text) (json : Json) (result : LlmEnrichment)
    → parse_response upper json ≡ valid result
    → Describes upper json result
unfolding parse_response
response-Describes upper (obj fields) result e =
    let (c, p, s, d) = collect_sound _ _ _ _ result e in
    let (category, has_category, names_category) =
      parse_enum_sound upper category_name categories _ _ c in
    let (priority, has_priority, names_priority) =
      parse_enum_sound upper priority_name priorities _ _ p in
    let (summary, has_summary, trimmed, not_empty, not_long) = parse_summary_sound _ _ s in
    let (has_confidence, is_unit) = parse_confidence_sound _ _ d in
    record {
      fields = fields;
      category = category;
      priority = priority;
      summary = summary;
      is_object = refl;
      has_category = has_category;
      has_priority = has_priority;
      has_summary = has_summary;
      has_confidence = has_confidence;
      names_category = names_category;
      names_priority = names_priority;
      is_trimmed = trimmed;
      not_empty = not_empty;
      not_long = not_long;
      is_unit = is_unit;
    }
response-Describes upper null result e = absurd (ground (arith, e))
response-Describes upper (bool b) result e = absurd (ground (arith, e))
response-Describes upper (num d) result e = absurd (ground (arith, e))
response-Describes upper (str t) result e = absurd (ground (arith, e))
response-Describes upper (arr xs) result e = absurd (ground (arith, e))

summary_kept :
    (text cut : Text)
    → cut ≡ trim text
    → 1 ≤ length cut
    → length cut ≤ 280
    → parse_summary (some (str text)) ≡ some cut
unfolding parse_summary
summary_kept text cut same low_end high_end = ground (arith, same, low_end, high_end)

confidence_kept : (d : Decimal) → IsUnit d → parse_confidence (some (num d)) ≡ some d
unfolding parse_confidence
confidence_kept d fits = ground (arith, (in_unit_iff d).1 fits)

Describes-response :
    (upper : Text → Text) (json : Json) (result : LlmEnrichment)
    → Describes upper json result
    → parse_response upper json ≡ valid result
unfolding parse_response parse_enum
Describes-response upper json result v =
    let c = category_found result.category in
    let p = priority_found result.priority in
    let s = summary_kept v.summary result.summary v.is_trimmed v.not_empty v.not_long in
    let d = confidence_kept result.confidence v.is_unit in
    rw (
      v.is_object, v.has_category, v.has_priority, v.has_summary, v.has_confidence,
      v.names_category, v.names_priority, c, p, s, d,
    )

-- An answer is accepted with a result exactly when its fields name the result's category and
-- priority, in any case, its summary is the result's once trimmed, of 1 to 280 units, and its confidence
-- is the result's, between 0 and 1.
pub parse_response_iff :
    (upper : Text → Text) (json : Json) (result : LlmEnrichment)
    → (parse_response upper json ≡ valid result) ↔ Describes upper json result
parse_response_iff upper json result =
    (response-Describes upper json result, Describes-response upper json result)
