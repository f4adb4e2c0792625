-- ===== src/Http.antt =====
-- The routes: the status that each answers by, the buckets of common/rate-limit/rate-limit.module.ts that
-- it is charged to by its controller's decorators, and what landing/landing.controller.ts serves. The
-- guard, which counts requests per address, is @nestjs/throttler's: a parameter.
pub mod Views
pub mod Health
use triage_engine.Prelude.{
  ℕ, Text, codes, Bool, true, false, not, ◌||◌, List, [], ◌∷◌, Option, none, some, any,
  if◌then◌else◌, select_rows,
}
use triage_engine.Config.{EnvVars}
use triage_engine.Enrichment.Fallback.{includes}
use triage_engine.Pipeline.{Outcome, ok, bad_request, conflict, not_found, threw}

pub data Bucket : Type 0 where
  read write : Bucket

pub data Route : Type 0 where
  events_post tickets_get dlq_list dlq_get dlq_replay : Route
  metrics_get health_get ready_get root_get sink_post sink_get : Route

-- SKIP_ALL, READS_ONLY, or no decorator.
pub data Skips : Type 0 where
  skip_all reads_only skip_none : Skips

abbrev pub skips : Route → Skips
skips events_post = skip_none
skips tickets_get = reads_only
skips dlq_list = skip_none
skips dlq_get = skip_none
skips dlq_replay = skip_none
skips metrics_get = skip_all
skips health_get = skip_all
skips ready_get = skip_all
skips root_get = skip_all
skips sink_post = skip_all
skips sink_get = skip_all

abbrev pub is_skipped : Skips → Bucket → Bool
is_skipped skip_all bucket = true
is_skipped reads_only read = false
is_skipped reads_only write = true
is_skipped skip_none bucket = false

pub record Throttler : Type 0 where
  pub name : Bucket
  pub ttl : ℕ
  pub limit : ℕ

abbrev pub throttlers : EnvVars → List Throttler
throttlers env =
    (record { name = read; ttl = env.rate_limit_ttl_ms; limit = env.rate_limit_global })
    ∷ (record { name = write; ttl = env.rate_limit_ttl_ms; limit = env.rate_limit_writes })
    ∷ []

-- Every configured bucket that the route does not skip.
unfoldable pub charged : EnvVars → Route → List Throttler
charged env route = select_rows (λ t. not (is_skipped (skips route) t.name)) (throttlers env)

-- The guard refuses a request if one of its buckets is used up.
unfoldable pub is_refused : (used_up : Throttler → Bool) → EnvVars → Route → Bool
unfolding charged
is_refused used_up env route = any used_up (charged env route)

-- @HttpCode(202) of POST /events and of POST /dlq/:id/replay, and the exceptions.
abbrev pub status_of : {A : Type 0} → Outcome A → ℕ
status_of (ok a) = 202
status_of bad_request = 400
status_of conflict = 409
status_of not_found = 404
status_of threw = 500

pub data Page : Type 0 where
  index_html index_json : Page

-- `accept?.includes('text/html')`
abbrev pub landing : (accept : Option Text) → Page
landing none = index_json
landing (some accept) = if includes accept (codes "text/html") then index_html else index_json
