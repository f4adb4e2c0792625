-- ===== src/Config/Layout.antt =====
-- The values of the schema's variables side by side, and the environment that is made of them.
use triage_engine.Prelude.{ℕ, Text, Bool, Option}
use triage_engine.Config.{EnvVars, NodeEnv, LogLevel}

-- One value for each variable.
abbrev pub Settings : Type 0
Settings =
    (NodeEnv × (ℕ × LogLevel))
    × ((Text × (ℕ × (Text × (Text × (Text × Bool)))))
        × ((Text × (ℕ × Option Text))
            × ((ℕ × (ℕ × (ℕ × ℕ)))
                × ((ℕ × (ℕ × (ℕ × (ℕ × Text))))
                    × ((Option Text × (Text × (ℕ × (ℕ × Option Text))))
                        × ((ℕ × (ℕ × (ℕ × (ℕ × ℕ))))
                            × ((Bool × (ℕ × (ℕ × ℕ)))
                                × ((Bool × (ℕ × ℕ)) × (ℕ × (ℕ × (ℕ × ℕ)))))))))))

abbrev pub env_of : Settings → EnvVars
env_of
      (
        server,
        (
          postgres,
          (redis, (pipeline, (outbox, (mistral, (recovery, (limits, (retention, breaker))))))),
        ),
      ) =
    let (node_env, (port, log_level)) = server in
    let (
      postgres_host,
      (
        postgres_port,
        (postgres_user, (postgres_password, (postgres_db, db_run_migrations_on_boot))),
      ),
    ) =
      postgres in
    let (redis_host, (redis_port, redis_password)) = redis in
    let (
      pipeline_max_attempts,
      (pipeline_backoff_base_ms, (pipeline_backoff_max_ms, idempotency_lease_ms)),
    ) =
      pipeline in
    let (
      outbox_relay_poll_interval_ms,
      (
        outbox_relay_batch_size,
        (outbox_max_attempts, (outbox_backoff_base_ms, webhook_target_url)),
      ),
    ) =
      outbox in
    let (
      mistral_api_key,
      (mistral_model, (mistral_timeout_ms, (mistral_max_retries, mistral_server_url))),
    ) =
      mistral in
    let (
      enrichment_upgrade_max_attempts,
      (
        enrichment_upgrade_backoff_ms,
        (reconcile_sweep_interval_ms, (reconcile_degraded_after_ms, reconcile_batch_size)),
      ),
    ) =
      recovery in
    let (trust_proxy, (rate_limit_ttl_ms, (rate_limit_global, rate_limit_writes))) = limits in
    let (retention_enabled, (retention_sweep_interval_ms, retention_max_age_ms)) = retention in
    let (
      circuit_breaker_error_threshold_percent,
      (circuit_breaker_volume_threshold, (circuit_breaker_timeout_ms, circuit_breaker_reset_ms)),
    ) =
      breaker in
    record {
      node_env = node_env;
      port = port;
      log_level = log_level;
      postgres_host = postgres_host;
      postgres_port = postgres_port;
      postgres_user = postgres_user;
      postgres_password = postgres_password;
      postgres_db = postgres_db;
      db_run_migrations_on_boot = db_run_migrations_on_boot;
      redis_host = redis_host;
      redis_port = redis_port;
      redis_password = redis_password;
      pipeline_max_attempts = pipeline_max_attempts;
      pipeline_backoff_base_ms = pipeline_backoff_base_ms;
      pipeline_backoff_max_ms = pipeline_backoff_max_ms;
      idempotency_lease_ms = idempotency_lease_ms;
      outbox_relay_poll_interval_ms = outbox_relay_poll_interval_ms;
      outbox_relay_batch_size = outbox_relay_batch_size;
      outbox_max_attempts = outbox_max_attempts;
      outbox_backoff_base_ms = outbox_backoff_base_ms;
      webhook_target_url = webhook_target_url;
      mistral_api_key = mistral_api_key;
      mistral_model = mistral_model;
      mistral_timeout_ms = mistral_timeout_ms;
      mistral_max_retries = mistral_max_retries;
      mistral_server_url = mistral_server_url;
      enrichment_upgrade_max_attempts = enrichment_upgrade_max_attempts;
      enrichment_upgrade_backoff_ms = enrichment_upgrade_backoff_ms;
      reconcile_sweep_interval_ms = reconcile_sweep_interval_ms;
      reconcile_degraded_after_ms = reconcile_degraded_after_ms;
      reconcile_batch_size = reconcile_batch_size;
      trust_proxy = trust_proxy;
      rate_limit_ttl_ms = rate_limit_ttl_ms;
      rate_limit_global = rate_limit_global;
      rate_limit_writes = rate_limit_writes;
      retention_enabled = retention_enabled;
      retention_sweep_interval_ms = retention_sweep_interval_ms;
      retention_max_age_ms = retention_max_age_ms;
      circuit_breaker_error_threshold_percent = circuit_breaker_error_threshold_percent;
      circuit_breaker_volume_threshold = circuit_breaker_volume_threshold;
      circuit_breaker_timeout_ms = circuit_breaker_timeout_ms;
      circuit_breaker_reset_ms = circuit_breaker_reset_ms;
    }
