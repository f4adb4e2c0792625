-- ===== src/Enrichment/Fallback.antt =====
-- enrichment/fallback.classifier.ts. `toLowerCase` is the parameter `lower`.
use triage_engine.Prelude.{
  Text, codes, Bool, true, false, ◌&&◌, ◌||◌, ◌==◌, List, [], ◌∷◌, ◌++◌, take, if◌then◌else◌,
}
use triage_engine.Json.{Decimal}
use triage_engine.Entities.{
  TicketEntity, TicketCategory, billing, technical, account, feature_request, complaint, other,
  TicketPriority, low, medium, high, urgent,
}

-- enrichment/llm-response.schema.ts: what both the model and the classifier return.
pub record LlmEnrichment : Type 0 where
  pub category : TicketCategory
  pub priority : TicketPriority
  pub summary : Text
  pub confidence : Decimal

unfoldable pub starts_with : (prefix text : Text) → Bool
starts_with [] text = true
starts_with (c ∷ cs) [] = false
starts_with (c ∷ cs) (d ∷ ds) = c == d && starts_with cs ds

-- text.includes(word)
unfoldable pub includes : (text word : Text) → Bool
unfolding starts_with
includes [] word = starts_with word []
includes (c ∷ text) word = starts_with word (c ∷ text) || includes text word

-- words.some((k) => text.includes(k))
unfoldable pub mentions : (text : Text) → List Text → Bool
unfolding includes
mentions text [] = false
mentions text (word ∷ words) = includes text word || mentions text words

abbrev pub category_keywords : List (TicketCategory × List Text)
category_keywords =
    (
      billing,
      codes "charge"
          ∷ codes "invoice"
          ∷ codes "refund"
          ∷ codes "payment"
          ∷ codes "billed"
          ∷ codes "subscription"
          ∷ codes "price"
          ∷ [],
    )
    ∷ (
      account,
      codes "password"
          ∷ codes "login"
          ∷ codes "log in"
          ∷ codes "locked"
          ∷ codes "access"
          ∷ codes "sign in"
          ∷ codes "account"
          ∷ codes "2fa"
          ∷ codes "reset"
          ∷ [],
    )
    ∷ (
      technical,
      codes "crash"
          ∷ codes "error"
          ∷ codes "bug"
          ∷ codes "broken"
          ∷ codes "500"
          ∷ codes "fails"
          ∷ codes "not working"
          ∷ codes "doesn't work"
          ∷ codes "freeze"
          ∷ codes "exception"
          ∷ [],
    )
    ∷ (
      feature_request,
      codes "feature"
          ∷ codes "request"
          ∷ codes "would be nice"
          ∷ codes "please add"
          ∷ codes "suggestion"
          ∷ codes "wish"
          ∷ [],
    )
    ∷ (
      complaint,
      codes "terrible"
          ∷ codes "worst"
          ∷ codes "angry"
          ∷ codes "unacceptable"
          ∷ codes "disappointed"
          ∷ codes "awful"
          ∷ codes "frustrated"
          ∷ [],
    )
    ∷ []

abbrev pub urgent_words : List Text
urgent_words =
    codes "urgent"
    ∷ codes "asap"
    ∷ codes "immediately"
    ∷ codes "critical"
    ∷ codes "down"
    ∷ codes "outage"
    ∷ codes "emergency"
    ∷ []

abbrev pub high_words : List Text
high_words =
    codes "crash"
    ∷ codes "cannot"
    ∷ codes "can't"
    ∷ codes "blocked"
    ∷ codes "broken"
    ∷ codes "data loss"
    ∷ codes "security"
    ∷ []

abbrev pub low_words : List Text
low_words =
    codes "question" ∷ codes "how do i" ∷ codes "how to" ∷ codes "wondering" ∷ codes "clarify" ∷ []

-- The loop over the table: the first category with a word in the text.
unfoldable pub first_category : List (TicketCategory × List Text) → (text : Text) → TicketCategory
unfolding mentions
first_category [] text = other
first_category ((category, words) ∷ table) text =
    if mentions text words then category else first_category table text

unfoldable pub prioritize : (text : Text) → TicketPriority
unfolding mentions
prioritize text =
    if mentions text urgent_words
    then urgent
    else if mentions text high_words
    then high
    else if mentions text low_words
    then low
    else medium

unfoldable pub classify : (lower : Text → Text) → TicketEntity → LlmEnrichment
unfolding first_category prioritize
classify lower ticket =
    let text = lower (ticket.subject ++ codes " " ++ ticket.body) in
    record {
      category = first_category category_keywords text;
      priority = prioritize text;
      summary = take 120 ticket.subject;
      confidence = record { negative = false; digits = 3; scale = 1 };
    }
