-- ===== src/Config/Print.antt =====
-- An environment written out as variables.
use triage_engine.Prelude.{
  ℕ, ◌≤◌, Text, codes, text_eq, Bool, true, false, List, [], ◌∷◌, Option, none, some, length,
  show_ℕ, ◌≡◌, refl, arith, Checked, valid, both, map_valid, ap, if◌then◌else◌, find_named, ◌∙◌,
}
use triage_engine.Config.{
  EnvVars, NodeEnv, development, test, production, LogLevel, trace, debug, info, warn, error, fatal,
}
use triage_engine.Config.Number.{to_integer}
use triage_engine.Config.Number.Shown.{to_integer-show_ℕ}
use triage_engine.Config.Field.{
  int_field, percent_field, string_field, url_field, optional_url, env_bool, enum_field, node_name,
  node_envs, level_name, log_levels,
}
use triage_engine.Config.Schema.{
  validate_env, read_server, read_postgres, read_redis, read_pipeline, read_outbox, read_mistral,
  read_recovery, read_limits, read_retention, read_breaker,
}
pub mod Printed
pub mod Reread
use triage_engine.Config.Layout.{env_of}
use triage_engine.Config.Bounds.{IsValidEnv}

abbrev pub bool_name : Bool → Text
bool_name true = codes "true"
bool_name false = codes "false"

-- The first variable with the name.
abbrev pub variable : List (Text × Option Text) → (name : Text) → Option Text
variable [] name = none
variable ((key, value) ∷ rest) name = if text_eq key name then value else variable rest name

abbrev pub print_env : EnvVars → (name : Text) → Option Text
print_env env = variable (
    (codes "NODE_ENV", some (node_name env.node_env))
    ∷ (codes "PORT", some (show_ℕ env.port))
    ∷ (codes "LOG_LEVEL", some (level_name env.log_level))
    ∷ (codes "POSTGRES_HOST", some env.postgres_host)
    ∷ (codes "POSTGRES_PORT", some (show_ℕ env.postgres_port))
    ∷ (codes "POSTGRES_USER", some env.postgres_user)
    ∷ (codes "POSTGRES_PASSWORD", some env.postgres_password)
    ∷ (codes "POSTGRES_DB", some env.postgres_db)
    ∷ (codes "DB_RUN_MIGRATIONS_ON_BOOT", some (bool_name env.db_run_migrations_on_boot))
    ∷ (codes "REDIS_HOST", some env.redis_host)
    ∷ (codes "REDIS_PORT", some (show_ℕ env.redis_port))
    ∷ (codes "REDIS_PASSWORD", env.redis_password)
    ∷ (codes "PIPELINE_MAX_ATTEMPTS", some (show_ℕ env.pipeline_max_attempts))
    ∷ (codes "PIPELINE_BACKOFF_BASE_MS", some (show_ℕ env.pipeline_backoff_base_ms))
    ∷ (codes "PIPELINE_BACKOFF_MAX_MS", some (show_ℕ env.pipeline_backoff_max_ms))
    ∷ (codes "IDEMPOTENCY_LEASE_MS", some (show_ℕ env.idempotency_lease_ms))
    ∷ (codes "OUTBOX_RELAY_POLL_INTERVAL_MS", some (show_ℕ env.outbox_relay_poll_interval_ms))
    ∷ (codes "OUTBOX_RELAY_BATCH_SIZE", some (show_ℕ env.outbox_relay_batch_size))
    ∷ (codes "OUTBOX_MAX_ATTEMPTS", some (show_ℕ env.outbox_max_attempts))
    ∷ (codes "OUTBOX_BACKOFF_BASE_MS", some (show_ℕ env.outbox_backoff_base_ms))
    ∷ (codes "WEBHOOK_TARGET_URL", some env.webhook_target_url)
    ∷ (codes "MISTRAL_API_KEY", env.mistral_api_key)
    ∷ (codes "MISTRAL_MODEL", some env.mistral_model)
    ∷ (codes "MISTRAL_TIMEOUT_MS", some (show_ℕ env.mistral_timeout_ms))
    ∷ (codes "MISTRAL_MAX_RETRIES", some (show_ℕ env.mistral_max_retries))
    ∷ (codes "MISTRAL_SERVER_URL", env.mistral_server_url)
    ∷ (codes "ENRICHMENT_UPGRADE_MAX_ATTEMPTS", some (show_ℕ env.enrichment_upgrade_max_attempts))
    ∷ (codes "ENRICHMENT_UPGRADE_BACKOFF_MS", some (show_ℕ env.enrichment_upgrade_backoff_ms))
    ∷ (codes "RECONCILE_SWEEP_INTERVAL_MS", some (show_ℕ env.reconcile_sweep_interval_ms))
    ∷ (codes "RECONCILE_DEGRADED_AFTER_MS", some (show_ℕ env.reconcile_degraded_after_ms))
    ∷ (codes "RECONCILE_BATCH_SIZE", some (show_ℕ env.reconcile_batch_size))
    ∷ (codes "TRUST_PROXY", some (bool_name env.trust_proxy))
    ∷ (codes "RATE_LIMIT_TTL_MS", some (show_ℕ env.rate_limit_ttl_ms))
    ∷ (codes "RATE_LIMIT_GLOBAL", some (show_ℕ env.rate_limit_global))
    ∷ (codes "RATE_LIMIT_WRITES", some (show_ℕ env.rate_limit_writes))
    ∷ (codes "RETENTION_ENABLED", some (bool_name env.retention_enabled))
    ∷ (codes "RETENTION_SWEEP_INTERVAL_MS", some (show_ℕ env.retention_sweep_interval_ms))
    ∷ (codes "RETENTION_MAX_AGE_MS", some (show_ℕ env.retention_max_age_ms))
    ∷ (
      codes "CIRCUIT_BREAKER_ERROR_THRESHOLD_PERCENT",
      some (show_ℕ env.circuit_breaker_error_threshold_percent),
    )
    ∷ (codes "CIRCUIT_BREAKER_VOLUME_THRESHOLD", some (show_ℕ env.circuit_breaker_volume_threshold))
    ∷ (codes "CIRCUIT_BREAKER_TIMEOUT_MS", some (show_ℕ env.circuit_breaker_timeout_ms))
    ∷ (codes "CIRCUIT_BREAKER_RESET_MS", some (show_ℕ env.circuit_breaker_reset_ms))
    ∷ [])
