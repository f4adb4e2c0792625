-- ===== src/Http/Health.antt =====
-- health/redis.health.ts and health/health.controller.ts. Terminus answers `up` when every check is up; what
-- the database's ping and Redis come to are arguments.
use triage_engine.Prelude.{
  Text, codes, text_eq, Bool, true, false, ◌++◌, if◌then◌else◌, List, [], ◌∷◌, ℕ,
}

-- How the race of PING against the timer ends.
pub data Ping : Type 0 where
  replied : (reply : Text) → Ping
  failed : (message : Text) → Ping
  timed_out : Ping

pub data Indicator : Type 0 where
  up : Indicator
  down : (message : Text) → Indicator

abbrev pub ping_timeout_ms : ℕ
ping_timeout_ms = 2000

-- RedisHealthIndicator.isHealthy
unfoldable pub redis_health : Ping → Indicator
redis_health (replied reply) =
    if text_eq reply (codes "PONG") then up else down (codes "unexpected ping reply: " ++ reply)
redis_health (failed message) = down message
redis_health timed_out = down (codes "redis ping timed out")

-- health.check: up when all are.
abbrev pub all_up : List Indicator → Bool
all_up [] = true
all_up (up ∷ rest) = all_up rest
all_up (down message ∷ rest) = false

-- GET /health
abbrev pub liveness : Bool
liveness = all_up []

-- GET /ready
unfoldable pub readiness : (postgres : Indicator) (redis : Ping) → Bool
unfolding redis_health
readiness postgres redis = all_up (postgres ∷ redis_health redis ∷ [])
