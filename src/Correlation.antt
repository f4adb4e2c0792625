-- ===== src/Correlation.antt =====
-- common/correlation/correlation.ts, the middleware of main.ts and common/logging/logging.config.ts. The
-- asynchronous scope is the correlation id that code runs with, if any, as an argument; `randomUUID`
-- is the argument `fresh`.
pub mod Trace
use triage_engine.Prelude.{
  Text, codes, text_eq, Bool, true, false, ◌||◌, List, [], ◌∷◌, Option, none, some, or_else,
  or_option, if◌then◌else◌,
}
use triage_engine.Config.{EnvVars, NodeEnv, LogLevel, development, test, production}

-- `fn` runs in a scope with the id, or with a fresh one.
abbrev pub run_with_correlation {ℓ} :
    {A : Type ℓ} → (correlation_id : Option Text) (fresh : Text) → (scope : Option Text → A) → A
run_with_correlation correlation_id fresh work = work (some (or_else correlation_id fresh))

-- `req.headers[CORRELATION_HEADER]`
pub data Header : Type 0 where
  absent : Header
  one : Text → Header
  many : List Text → Header

-- `value || fallback`
abbrev pub or_if_empty : Text → Text → Text
or_if_empty [] fallback = fallback
or_if_empty (c ∷ cs) fallback = c ∷ cs

-- The id that a request runs with, and that its response carries.
unfoldable pub request_correlation : Header → (fresh : Text) → Text
request_correlation absent fresh = fresh
request_correlation (one text) fresh = or_if_empty text fresh
request_correlation (many []) fresh = fresh
request_correlation (many (text ∷ texts)) fresh = or_if_empty text fresh

-- pino's genReqId, which sets the response's header to the same.
unfoldable pub gen_req_id : (scope header : Option Text) (fresh : Text) → Text
gen_req_id scope header fresh = or_else (or_option scope header) fresh

-- What is put on each line of the log.
abbrev pub mixin : (scope : Option Text) → Option Text
mixin none = none
mixin (some []) = none
mixin (some (c ∷ cs)) = some (c ∷ cs)

-- autoLogging.ignore
abbrev pub is_ignored : (url : Text) → Bool
is_ignored url =
    text_eq url (codes "/health") || text_eq url (codes "/ready") || text_eq url (codes "/metrics")

-- The level, and whether lines are pretty or JSON.
pub record LoggerParams : Type 0 where
  pub level : LogLevel
  pub pretty : Bool

abbrev is_development : NodeEnv → Bool
is_development development = true
is_development test = false
is_development production = false

abbrev pub build_logger_params : EnvVars → LoggerParams
build_logger_params env = record { level = env.log_level; pretty = is_development env.node_env }
