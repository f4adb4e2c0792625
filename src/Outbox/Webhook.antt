-- ===== src/Outbox/Webhook.antt =====
-- outbox/dispatchers/webhook.dispatcher.ts with the correlation scope of outbox/outbox.relay.ts: a
-- dispatch is one POST. `fetch`, `JSON.stringify` and `randomUUID` are parameters.
pub mod Link
pub mod Once
pub mod Runs
use triage_engine.Prelude.{
  ℕ, Text, codes, Bool, ◌&&◌, ltb, leb, ◌++◌, Option, none, some, or_else, if◌then◌else◌, show_ℕ,
  [],
}
use triage_engine.Config.{EnvVars}
use triage_engine.Json.{Json, str, obj, end, field, get_field}
use triage_engine.Outbox.{DispatchMessage, Dispatched, delivered, rejected}

abbrev pub webhook_timeout_ms : ℕ
webhook_timeout_ms = 5000

-- The request, aborted after `timeout_ms`.
pub record HttpRequest : Type 0 where
  pub url : Text
  pub method : Text
  pub content_type : Text
  pub idempotency_key : Text
  pub correlation_id : Text
  pub body : Text
  pub timeout_ms : ℕ

-- `fetch` resolves with a response or throws: network or abort.
pub data Fetched : Type 0 where
  responded : (status : ℕ) (status_text : Text) → Fetched
  threw : (message : Text) → Fetched

-- `response.ok`
abbrev pub is_ok : (status : ℕ) → Bool
is_ok status = leb 200 status && ltb status 300

-- `typeof row.payload?.correlationId === 'string'`
abbrev pub text_of : Option Json → Option Text
text_of (some (str t)) = some t
text_of _ = none

unfoldable pub correlation_of : (payload : Json) → Option Text
correlation_of (obj fields) = text_of (get_field (codes "correlationId") fields)
correlation_of _ = none

-- How `dispatch` ends for what `fetch` came to.
abbrev pub conclude : Fetched → Dispatched
conclude (responded status status_text) =
    if is_ok status
    then delivered
    else rejected (codes "webhook target returned " ++ show_ℕ status ++ codes " " ++ status_text)
conclude (threw message) = rejected message

module _ {S : Type 0} (fetch : HttpRequest → S → Fetched × S) (stringify : Json → Text)
    (env : EnvVars) where
  abbrev pub http_request : (correlation_id : Option Text) → DispatchMessage → HttpRequest
  http_request correlation_id message = record {
    url = env.webhook_target_url;
    method = codes "POST";
    content_type = codes "application/json";
    idempotency_key = message.dedup_key;
    correlation_id = or_else correlation_id [];
    body = stringify (
        obj (
          field (codes "eventType") (str message.event_type) (
            field (codes "aggregateType") (str message.aggregate_type) (
              field (codes "aggregateId") (str message.aggregate_id)
                (field (codes "payload") message.payload end)))));
    timeout_ms = webhook_timeout_ms;
  }

  -- `correlation_id` is that of the scope that the call runs in.
  unfoldable pub dispatch : (correlation_id : Option Text) → DispatchMessage → S → Dispatched × S
  dispatch correlation_id message s =
      let answer = fetch (http_request correlation_id message) s in (conclude answer.0, answer.1)

  -- The relay's call: in the scope of the payload's correlation id, or of a fresh one.
  unfoldable pub dispatch_in_scope : (fresh : Text) → DispatchMessage → S → Dispatched × S
  unfolding dispatch correlation_of
  dispatch_in_scope fresh message s =
      dispatch (some (or_else (correlation_of message.payload) fresh)) message s
