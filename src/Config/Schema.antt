-- ===== src/Config/Schema.antt =====
-- config/env.validation.ts: the schema of the environment. `config` is process.env by names, `is_url`
-- what zod's `url()` accepts.
use triage_engine.Prelude.{
  ℕ, Text, codes, Bool, false, Option, Checked, valid, both, map_valid, join, newline, path_text,
  List, map, ◌++◌,
}
use triage_engine.Config.{EnvVars, NodeEnv, development, LogLevel, info}
use triage_engine.Config.Field.{
  int_field, percent_field, string_field, url_field, optional_url, env_bool, enum_field, node_name,
  node_envs, level_name, log_levels,
}
use triage_engine.Config.Layout.{env_of}

module _ (is_url : Text → Bool) (config : Text → Option Text) where
  unfoldable pub read_server : Checked (NodeEnv × (ℕ × LogLevel))
  unfolding int_field percent_field string_field url_field optional_url env_bool enum_field
  read_server =
      both
        (enum_field node_name node_envs (codes "NODE_ENV") development (config (codes "NODE_ENV")))
        (both (int_field (codes "PORT") 1 3000 (config (codes "PORT")))
          (enum_field level_name log_levels (codes "LOG_LEVEL") info (config (codes "LOG_LEVEL"))))

  unfoldable pub read_postgres : Checked (Text × (ℕ × (Text × (Text × (Text × Bool)))))
  unfolding int_field percent_field string_field url_field optional_url env_bool enum_field
  read_postgres =
      both
        (string_field (codes "POSTGRES_HOST") (codes "localhost") (config (codes "POSTGRES_HOST")))
        (both (int_field (codes "POSTGRES_PORT") 1 5432 (config (codes "POSTGRES_PORT"))) (
          both
            (string_field (codes "POSTGRES_USER") (codes "triage") (config (codes "POSTGRES_USER")))
            (both
              (string_field (codes "POSTGRES_PASSWORD") (codes "triage")
                (config (codes "POSTGRES_PASSWORD")))
              (both
                (string_field (codes "POSTGRES_DB") (codes "triage") (config (codes "POSTGRES_DB")))
                (env_bool (codes "DB_RUN_MIGRATIONS_ON_BOOT") false
                  (config (codes "DB_RUN_MIGRATIONS_ON_BOOT")))))))

  unfoldable pub read_redis : Checked (Text × (ℕ × Option Text))
  unfolding int_field percent_field string_field url_field optional_url env_bool enum_field
  read_redis =
      both (string_field (codes "REDIS_HOST") (codes "localhost") (config (codes "REDIS_HOST"))) (
        both (int_field (codes "REDIS_PORT") 1 6379 (config (codes "REDIS_PORT")))
          (valid (config (codes "REDIS_PASSWORD"))))

  unfoldable pub read_pipeline : Checked (ℕ × (ℕ × (ℕ × ℕ)))
  unfolding int_field percent_field string_field url_field optional_url env_bool enum_field
  read_pipeline =
      both (int_field (codes "PIPELINE_MAX_ATTEMPTS") 1 5 (config (codes "PIPELINE_MAX_ATTEMPTS")))
        (both
          (int_field (codes "PIPELINE_BACKOFF_BASE_MS") 0 2000
            (config (codes "PIPELINE_BACKOFF_BASE_MS")))
          (both
            (int_field (codes "PIPELINE_BACKOFF_MAX_MS") 0 60000
              (config (codes "PIPELINE_BACKOFF_MAX_MS")))
            (int_field (codes "IDEMPOTENCY_LEASE_MS") 1000 300000
              (config (codes "IDEMPOTENCY_LEASE_MS")))))

  unfoldable pub read_outbox : Checked (ℕ × (ℕ × (ℕ × (ℕ × Text))))
  unfolding int_field percent_field string_field url_field optional_url env_bool enum_field
  read_outbox =
      both
        (int_field (codes "OUTBOX_RELAY_POLL_INTERVAL_MS") 100 1000
          (config (codes "OUTBOX_RELAY_POLL_INTERVAL_MS")))
        (both
          (int_field (codes "OUTBOX_RELAY_BATCH_SIZE") 1 20
            (config (codes "OUTBOX_RELAY_BATCH_SIZE")))
          (both
            (int_field (codes "OUTBOX_MAX_ATTEMPTS") 1 10 (config (codes "OUTBOX_MAX_ATTEMPTS")))
            (both
              (int_field (codes "OUTBOX_BACKOFF_BASE_MS") 0 2000
                (config (codes "OUTBOX_BACKOFF_BASE_MS")))
              (url_field is_url (codes "WEBHOOK_TARGET_URL")
                (codes "http://localhost:3000/_sink/webhook")
                (config (codes "WEBHOOK_TARGET_URL"))))))

  unfoldable pub read_mistral : Checked (Option Text × (Text × (ℕ × (ℕ × Option Text))))
  unfolding int_field percent_field string_field url_field optional_url env_bool enum_field
  read_mistral = both (valid (config (codes "MISTRAL_API_KEY"))) (
      both
        (string_field (codes "MISTRAL_MODEL") (codes "mistral-small-latest")
          (config (codes "MISTRAL_MODEL")))
        (both
          (int_field (codes "MISTRAL_TIMEOUT_MS") 100 10000 (config (codes "MISTRAL_TIMEOUT_MS")))
          (both (int_field (codes "MISTRAL_MAX_RETRIES") 0 2 (config (codes "MISTRAL_MAX_RETRIES")))
            (optional_url is_url (codes "MISTRAL_SERVER_URL")
              (config (codes "MISTRAL_SERVER_URL"))))))

  unfoldable pub read_recovery : Checked (ℕ × (ℕ × (ℕ × (ℕ × ℕ))))
  unfolding int_field percent_field string_field url_field optional_url env_bool enum_field
  read_recovery =
      both
        (int_field (codes "ENRICHMENT_UPGRADE_MAX_ATTEMPTS") 0 5
          (config (codes "ENRICHMENT_UPGRADE_MAX_ATTEMPTS")))
        (both
          (int_field (codes "ENRICHMENT_UPGRADE_BACKOFF_MS") 1000 30000
            (config (codes "ENRICHMENT_UPGRADE_BACKOFF_MS")))
          (both
            (int_field (codes "RECONCILE_SWEEP_INTERVAL_MS") 1000 60000
              (config (codes "RECONCILE_SWEEP_INTERVAL_MS")))
            (both
              (int_field (codes "RECONCILE_DEGRADED_AFTER_MS") 0 300000
                (config (codes "RECONCILE_DEGRADED_AFTER_MS")))
              (int_field (codes "RECONCILE_BATCH_SIZE") 1 50
                (config (codes "RECONCILE_BATCH_SIZE"))))))

  unfoldable pub read_limits : Checked (Bool × (ℕ × (ℕ × ℕ)))
  unfolding int_field percent_field string_field url_field optional_url env_bool enum_field
  read_limits = both (env_bool (codes "TRUST_PROXY") false (config (codes "TRUST_PROXY"))) (
      both (int_field (codes "RATE_LIMIT_TTL_MS") 1000 60000 (config (codes "RATE_LIMIT_TTL_MS"))) (
        both (int_field (codes "RATE_LIMIT_GLOBAL") 1 120 (config (codes "RATE_LIMIT_GLOBAL")))
          (int_field (codes "RATE_LIMIT_WRITES") 1 20 (config (codes "RATE_LIMIT_WRITES")))))

  unfoldable pub read_retention : Checked (Bool × (ℕ × ℕ))
  unfolding int_field percent_field string_field url_field optional_url env_bool enum_field
  read_retention =
      both (env_bool (codes "RETENTION_ENABLED") false (config (codes "RETENTION_ENABLED"))) (
        both
          (int_field (codes "RETENTION_SWEEP_INTERVAL_MS") 60000 3600000
            (config (codes "RETENTION_SWEEP_INTERVAL_MS")))
          (int_field (codes "RETENTION_MAX_AGE_MS") 60000 604800000
            (config (codes "RETENTION_MAX_AGE_MS"))))

  unfoldable pub read_breaker : Checked (ℕ × (ℕ × (ℕ × ℕ)))
  unfolding int_field percent_field string_field url_field optional_url env_bool enum_field
  read_breaker =
      both
        (percent_field (codes "CIRCUIT_BREAKER_ERROR_THRESHOLD_PERCENT") 50
          (config (codes "CIRCUIT_BREAKER_ERROR_THRESHOLD_PERCENT")))
        (both
          (int_field (codes "CIRCUIT_BREAKER_VOLUME_THRESHOLD") 1 5
            (config (codes "CIRCUIT_BREAKER_VOLUME_THRESHOLD")))
          (both
            (int_field (codes "CIRCUIT_BREAKER_TIMEOUT_MS") 100 12000
              (config (codes "CIRCUIT_BREAKER_TIMEOUT_MS")))
            (int_field (codes "CIRCUIT_BREAKER_RESET_MS") 1000 30000
              (config (codes "CIRCUIT_BREAKER_RESET_MS")))))

  -- envSchema.safeParse(config): the variables in the order of the schema, all issues together.
  unfoldable pub validate_env : Checked EnvVars
  unfolding read_server read_postgres read_redis read_pipeline read_outbox read_mistral
      read_recovery read_limits read_retention read_breaker
  validate_env = map_valid env_of (
      both read_server (
        both read_postgres (
          both read_redis (
            both read_pipeline (
              both read_outbox (
                both read_mistral
                  (both read_recovery (both read_limits (both read_retention read_breaker)))))))))

-- What `validateEnv` throws, with zod's message of an issue.
unfoldable pub refusal : (message : Option Text → Text) → List (Option Text) → Text
unfolding join
refusal message issues =
    codes "Invalid environment configuration:"
    ++ newline
    ++ join newline
        (map (λ issue. codes "  - " ++ path_text issue ++ codes ": " ++ message issue) issues)
