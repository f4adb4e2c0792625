-- ===== src/Config/Print/Reread.antt =====
-- The environment is read back from its variables.
use triage_engine.Prelude.{
  ℕ, Text, codes, text_eq, Bool, true, false, Option, ◌≡◌, refl, arith, valid, map_valid, ap,
}
use triage_engine.Config.{EnvVars, NodeEnv, development, LogLevel, info}
use triage_engine.Config.Schema.{
  validate_env, read_server, read_postgres, read_redis, read_pipeline, read_outbox, read_mistral,
  read_recovery, read_limits, read_retention, read_breaker,
}
use triage_engine.Config.Layout.{env_of}
use triage_engine.Config.Bounds.{IsValidEnv}
use triage_engine.Config.Print.{print_env}
use triage_engine.Config.Print.Printed.{
  int_printed, percent_printed, string_printed, url_printed, optional_printed, bool_printed,
  node_printed, level_printed, both_valid,
}

module _ (is_url : Text → Bool) (env : EnvVars) (ok : IsValidEnv is_url env)
    (target : is_url env.webhook_target_url ≡ true) where
  abbrev server_values : NodeEnv × (ℕ × LogLevel)
  server_values = (env.node_env, (env.port, env.log_level))

  server_printed : read_server is_url (print_env env) ≡ valid server_values
  unfolding read_server text_eq
  server_printed = both_valid _ _ _ _ (node_printed (codes "NODE_ENV") development env.node_env) (
      both_valid _ _ _ _ (int_printed (codes "PORT") 1 3000 env.port ok.port)
        (level_printed (codes "LOG_LEVEL") info env.log_level))

  abbrev postgres_values : Text × (ℕ × (Text × (Text × (Text × Bool))))
  postgres_values = (
    env.postgres_host,
    (
      env.postgres_port,
      (
        env.postgres_user,
        (env.postgres_password, (env.postgres_db, env.db_run_migrations_on_boot)),
      ),
    ),
  )

  postgres_printed : read_postgres is_url (print_env env) ≡ valid postgres_values
  unfolding read_postgres text_eq
  postgres_printed =
      both_valid _ _ _ _
        (string_printed (codes "POSTGRES_HOST") (codes "localhost") env.postgres_host
          ok.postgres_host)
        (both_valid _ _ _ _
          (int_printed (codes "POSTGRES_PORT") 1 5432 env.postgres_port ok.postgres_port)
          (both_valid _ _ _ _
            (string_printed (codes "POSTGRES_USER") (codes "triage") env.postgres_user
              ok.postgres_user)
            (both_valid _ _ _ _
              (string_printed (codes "POSTGRES_PASSWORD") (codes "triage") env.postgres_password
                ok.postgres_password)
              (both_valid _ _ _ _
                (string_printed (codes "POSTGRES_DB") (codes "triage") env.postgres_db
                  ok.postgres_db)
                (bool_printed (codes "DB_RUN_MIGRATIONS_ON_BOOT") false
                  env.db_run_migrations_on_boot)))))

  abbrev redis_values : Text × (ℕ × Option Text)
  redis_values = (env.redis_host, (env.redis_port, env.redis_password))

  redis_printed : read_redis is_url (print_env env) ≡ valid redis_values
  unfolding read_redis text_eq
  redis_printed =
      both_valid _ _ _ _
        (string_printed (codes "REDIS_HOST") (codes "localhost") env.redis_host ok.redis_host)
        (both_valid _ _ _ _ (int_printed (codes "REDIS_PORT") 1 6379 env.redis_port ok.redis_port)
          refl)

  abbrev pipeline_values : ℕ × (ℕ × (ℕ × ℕ))
  pipeline_values = (
    env.pipeline_max_attempts,
    (env.pipeline_backoff_base_ms, (env.pipeline_backoff_max_ms, env.idempotency_lease_ms)),
  )

  pipeline_printed : read_pipeline is_url (print_env env) ≡ valid pipeline_values
  unfolding read_pipeline text_eq
  pipeline_printed =
      both_valid _ _ _ _
        (int_printed (codes "PIPELINE_MAX_ATTEMPTS") 1 5 env.pipeline_max_attempts
          ok.pipeline_max_attempts)
        (both_valid _ _ _ _
          (int_printed (codes "PIPELINE_BACKOFF_BASE_MS") 0 2000 env.pipeline_backoff_base_ms
            (omega arith))
          (both_valid _ _ _ _
            (int_printed (codes "PIPELINE_BACKOFF_MAX_MS") 0 60000 env.pipeline_backoff_max_ms
              (omega arith))
            (int_printed (codes "IDEMPOTENCY_LEASE_MS") 1000 300000 env.idempotency_lease_ms
              ok.idempotency_lease_ms)))

  abbrev outbox_values : ℕ × (ℕ × (ℕ × (ℕ × Text)))
  outbox_values = (
    env.outbox_relay_poll_interval_ms,
    (
      env.outbox_relay_batch_size,
      (env.outbox_max_attempts, (env.outbox_backoff_base_ms, env.webhook_target_url)),
    ),
  )

  outbox_printed : read_outbox is_url (print_env env) ≡ valid outbox_values
  unfolding read_outbox text_eq
  outbox_printed =
      both_valid _ _ _ _
        (int_printed (codes "OUTBOX_RELAY_POLL_INTERVAL_MS") 100 1000
          env.outbox_relay_poll_interval_ms ok.outbox_relay_poll_interval_ms)
        (both_valid _ _ _ _
          (int_printed (codes "OUTBOX_RELAY_BATCH_SIZE") 1 20 env.outbox_relay_batch_size
            ok.outbox_relay_batch_size)
          (both_valid _ _ _ _
            (int_printed (codes "OUTBOX_MAX_ATTEMPTS") 1 10 env.outbox_max_attempts
              ok.outbox_max_attempts)
            (both_valid _ _ _ _
              (int_printed (codes "OUTBOX_BACKOFF_BASE_MS") 0 2000 env.outbox_backoff_base_ms
                (omega arith))
              (url_printed is_url (codes "WEBHOOK_TARGET_URL")
                (codes "http://localhost:3000/_sink/webhook") env.webhook_target_url target))))

  abbrev mistral_values : Option Text × (Text × (ℕ × (ℕ × Option Text)))
  mistral_values = (
    env.mistral_api_key,
    (
      env.mistral_model,
      (env.mistral_timeout_ms, (env.mistral_max_retries, env.mistral_server_url)),
    ),
  )

  mistral_printed : read_mistral is_url (print_env env) ≡ valid mistral_values
  unfolding read_mistral text_eq
  mistral_printed = both_valid _ _ _ _ refl (
      both_valid _ _ _ _
        (string_printed (codes "MISTRAL_MODEL") (codes "mistral-small-latest") env.mistral_model
          ok.mistral_model)
        (both_valid _ _ _ _
          (int_printed (codes "MISTRAL_TIMEOUT_MS") 100 10000 env.mistral_timeout_ms
            ok.mistral_timeout_ms)
          (both_valid _ _ _ _
            (int_printed (codes "MISTRAL_MAX_RETRIES") 0 2 env.mistral_max_retries (omega arith))
            (optional_printed is_url (codes "MISTRAL_SERVER_URL") env.mistral_server_url
              ok.mistral_server_url))))

  abbrev recovery_values : ℕ × (ℕ × (ℕ × (ℕ × ℕ)))
  recovery_values = (
    env.enrichment_upgrade_max_attempts,
    (
      env.enrichment_upgrade_backoff_ms,
      (
        env.reconcile_sweep_interval_ms,
        (env.reconcile_degraded_after_ms, env.reconcile_batch_size),
      ),
    ),
  )

  recovery_printed : read_recovery is_url (print_env env) ≡ valid recovery_values
  unfolding read_recovery text_eq
  recovery_printed =
      both_valid _ _ _ _
        (int_printed (codes "ENRICHMENT_UPGRADE_MAX_ATTEMPTS") 0 5
          env.enrichment_upgrade_max_attempts (omega arith))
        (both_valid _ _ _ _
          (int_printed (codes "ENRICHMENT_UPGRADE_BACKOFF_MS") 1000 30000
            env.enrichment_upgrade_backoff_ms ok.enrichment_upgrade_backoff_ms)
          (both_valid _ _ _ _
            (int_printed (codes "RECONCILE_SWEEP_INTERVAL_MS") 1000 60000
              env.reconcile_sweep_interval_ms ok.reconcile_sweep_interval_ms)
            (both_valid _ _ _ _
              (int_printed (codes "RECONCILE_DEGRADED_AFTER_MS") 0 300000
                env.reconcile_degraded_after_ms (omega arith))
              (int_printed (codes "RECONCILE_BATCH_SIZE") 1 50 env.reconcile_batch_size
                ok.reconcile_batch_size))))

  abbrev limits_values : Bool × (ℕ × (ℕ × ℕ))
  limits_values =
      (env.trust_proxy, (env.rate_limit_ttl_ms, (env.rate_limit_global, env.rate_limit_writes)))

  limits_printed : read_limits is_url (print_env env) ≡ valid limits_values
  unfolding read_limits text_eq
  limits_printed = both_valid _ _ _ _ (bool_printed (codes "TRUST_PROXY") false env.trust_proxy) (
      both_valid _ _ _ _
        (int_printed (codes "RATE_LIMIT_TTL_MS") 1000 60000 env.rate_limit_ttl_ms
          ok.rate_limit_ttl_ms)
        (both_valid _ _ _ _
          (int_printed (codes "RATE_LIMIT_GLOBAL") 1 120 env.rate_limit_global ok.rate_limit_global)
          (int_printed (codes "RATE_LIMIT_WRITES") 1 20 env.rate_limit_writes
            ok.rate_limit_writes)))

  abbrev retention_values : Bool × (ℕ × ℕ)
  retention_values =
      (env.retention_enabled, (env.retention_sweep_interval_ms, env.retention_max_age_ms))

  retention_printed : read_retention is_url (print_env env) ≡ valid retention_values
  unfolding read_retention text_eq
  retention_printed =
      both_valid _ _ _ _ (bool_printed (codes "RETENTION_ENABLED") false env.retention_enabled) (
        both_valid _ _ _ _
          (int_printed (codes "RETENTION_SWEEP_INTERVAL_MS") 60000 3600000
            env.retention_sweep_interval_ms ok.retention_sweep_interval_ms)
          (int_printed (codes "RETENTION_MAX_AGE_MS") 60000 604800000 env.retention_max_age_ms
            ok.retention_max_age_ms))

  abbrev breaker_values : ℕ × (ℕ × (ℕ × ℕ))
  breaker_values = (
    env.circuit_breaker_error_threshold_percent,
    (
      env.circuit_breaker_volume_threshold,
      (env.circuit_breaker_timeout_ms, env.circuit_breaker_reset_ms),
    ),
  )

  breaker_printed : read_breaker is_url (print_env env) ≡ valid breaker_values
  unfolding read_breaker text_eq
  breaker_printed =
      both_valid _ _ _ _
        (percent_printed (codes "CIRCUIT_BREAKER_ERROR_THRESHOLD_PERCENT") 50
          env.circuit_breaker_error_threshold_percent ok.circuit_breaker_error_threshold_percent)
        (both_valid _ _ _ _
          (int_printed (codes "CIRCUIT_BREAKER_VOLUME_THRESHOLD") 1 5
            env.circuit_breaker_volume_threshold ok.circuit_breaker_volume_threshold)
          (both_valid _ _ _ _
            (int_printed (codes "CIRCUIT_BREAKER_TIMEOUT_MS") 100 12000
              env.circuit_breaker_timeout_ms ok.circuit_breaker_timeout_ms)
            (int_printed (codes "CIRCUIT_BREAKER_RESET_MS") 1000 30000 env.circuit_breaker_reset_ms
              ok.circuit_breaker_reset_ms)))

  -- An environment within the bounds of the schema, its target a url, is read back from its
  -- variables as it was.
  pub validate_env-print_env : validate_env is_url (print_env env) ≡ valid env
  unfolding validate_env
  validate_env-print_env = ap (map_valid env_of) (
      both_valid _ _ _ _ server_printed (
        both_valid _ _ _ _ postgres_printed (
          both_valid _ _ _ _ redis_printed (
            both_valid _ _ _ _ pipeline_printed (
              both_valid _ _ _ _ outbox_printed (
                both_valid _ _ _ _ mistral_printed (
                  both_valid _ _ _ _ recovery_printed (
                    both_valid _ _ _ _ limits_printed
                      (both_valid _ _ _ _ retention_printed breaker_printed)))))))))
