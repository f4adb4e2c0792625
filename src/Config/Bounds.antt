-- ===== src/Config/Bounds.antt =====
-- The bounds that an environment has once the service has accepted it, from those of its variables.
use triage_engine.Prelude.{
  ◌≤◌, Text, codes, Bool, true, some, length, ◌≡◌, ◌⊎◌, refl, arith, Checked, valid, invalid,
  map_valid, subst,
}
use triage_engine.Config.{EnvVars}
use triage_engine.Config.Layout.{Settings, env_of}
use triage_engine.Config.Yields.{
  Yields, IsOptionalUrl, Any, AtLeast, IsPercent, HasText, IsUrl, Both,
}

-- A bound, a text that is not empty, or a url for each variable that has one. A default is not checked
-- to be a url.
pub record IsValidEnv (is_url : Text → Bool) (env : EnvVars) : Type 0 where
  pub port : 1 ≤ env.port
  pub postgres_host : 1 ≤ length env.postgres_host
  pub postgres_port : 1 ≤ env.postgres_port
  pub postgres_user : 1 ≤ length env.postgres_user
  pub postgres_password : 1 ≤ length env.postgres_password
  pub postgres_db : 1 ≤ length env.postgres_db
  pub redis_host : 1 ≤ length env.redis_host
  pub redis_port : 1 ≤ env.redis_port
  pub pipeline_max_attempts : 1 ≤ env.pipeline_max_attempts
  pub idempotency_lease_ms : 1000 ≤ env.idempotency_lease_ms
  pub outbox_relay_poll_interval_ms : 100 ≤ env.outbox_relay_poll_interval_ms
  pub outbox_relay_batch_size : 1 ≤ env.outbox_relay_batch_size
  pub outbox_max_attempts : 1 ≤ env.outbox_max_attempts
  pub webhook_target_url :
      (is_url env.webhook_target_url ≡ true)
      ⊎ (env.webhook_target_url ≡ codes "http://localhost:3000/_sink/webhook")
  pub mistral_model : 1 ≤ length env.mistral_model
  pub mistral_timeout_ms : 100 ≤ env.mistral_timeout_ms
  pub mistral_server_url :
      (u : Text) → env.mistral_server_url ≡ some u → (is_url u ≡ true) × (1 ≤ length u)
  pub enrichment_upgrade_backoff_ms : 1000 ≤ env.enrichment_upgrade_backoff_ms
  pub reconcile_sweep_interval_ms : 1000 ≤ env.reconcile_sweep_interval_ms
  pub reconcile_batch_size : 1 ≤ env.reconcile_batch_size
  pub rate_limit_ttl_ms : 1000 ≤ env.rate_limit_ttl_ms
  pub rate_limit_global : 1 ≤ env.rate_limit_global
  pub rate_limit_writes : 1 ≤ env.rate_limit_writes
  pub retention_sweep_interval_ms : 60000 ≤ env.retention_sweep_interval_ms
  pub retention_max_age_ms : 60000 ≤ env.retention_max_age_ms
  pub circuit_breaker_error_threshold_percent :
      (1 ≤ env.circuit_breaker_error_threshold_percent)
      × (env.circuit_breaker_error_threshold_percent ≤ 100)
  pub circuit_breaker_volume_threshold : 1 ≤ env.circuit_breaker_volume_threshold
  pub circuit_breaker_timeout_ms : 100 ≤ env.circuit_breaker_timeout_ms
  pub circuit_breaker_reset_ms : 1000 ≤ env.circuit_breaker_reset_ms

-- The properties of all variables, in the order of the schema.
abbrev pub AreChecked : (is_url : Text → Bool) → Settings → Type 0
AreChecked is_url =
    (Both (Both Any (Both (AtLeast 1) Any)) (
      Both (Both HasText (Both (AtLeast 1) (Both HasText (Both HasText (Both HasText Any))))) (
        Both (Both HasText (Both (AtLeast 1) Any)) (
          Both (Both (AtLeast 1) (Both (AtLeast 0) (Both (AtLeast 0) (AtLeast 1000)))) (
            Both
              (Both (AtLeast 100) (
                Both (AtLeast 1) (
                  Both (AtLeast 1) (
                    Both (AtLeast 0)
                      (IsUrl is_url (codes "http://localhost:3000/_sink/webhook"))))))
              (Both
                (Both Any
                  (Both HasText (Both (AtLeast 100) (Both (AtLeast 0) (IsOptionalUrl is_url)))))
                (Both
                  (Both (AtLeast 0)
                    (Both (AtLeast 1000) (Both (AtLeast 1000) (Both (AtLeast 0) (AtLeast 1)))))
                  (Both (Both Any (Both (AtLeast 1000) (Both (AtLeast 1) (AtLeast 1)))) (
                    Both (Both Any (Both (AtLeast 60000) (AtLeast 60000))) (
                      Both IsPercent
                        (Both (AtLeast 1) (Both (AtLeast 100) (AtLeast 1000)))))))))))))

pub map-Yields :
    {A B : Type 0} (f : A → B) (x : Checked A) (P : B → Type 0)
    → Yields x (λ a. P (f a))
    → Yields (map_valid f x) P
map-Yields f (valid a) P p b e = let same : f a ≡ b = ground (arith, e) in subst P same (p a refl)
map-Yields f (invalid issues) P p b e = absurd (ground (arith, e))

pub AreChecked-IsValidEnv :
    (is_url : Text → Bool) (settings : Settings)
    → AreChecked is_url settings
    → IsValidEnv is_url (env_of settings)
AreChecked-IsValidEnv is_url settings all =
    let (
      server,
      (
        postgres,
        (redis, (pipeline, (outbox, (mistral, (recovery, (limits, (retention, breaker))))))),
      ),
    ) =
      all in
    record {
      port = server.1.0;
      postgres_host = postgres.0;
      postgres_port = postgres.1.0;
      postgres_user = postgres.1.1.0;
      postgres_password = postgres.1.1.1.0;
      postgres_db = postgres.1.1.1.1.0;
      redis_host = redis.0;
      redis_port = redis.1.0;
      pipeline_max_attempts = pipeline.0;
      idempotency_lease_ms = pipeline.1.1.1;
      outbox_relay_poll_interval_ms = outbox.0;
      outbox_relay_batch_size = outbox.1.0;
      outbox_max_attempts = outbox.1.1.0;
      webhook_target_url = outbox.1.1.1.1;
      mistral_model = mistral.1.0;
      mistral_timeout_ms = mistral.1.1.0;
      mistral_server_url = mistral.1.1.1.1;
      enrichment_upgrade_backoff_ms = recovery.1.0;
      reconcile_sweep_interval_ms = recovery.1.1.0;
      reconcile_batch_size = recovery.1.1.1.1;
      rate_limit_ttl_ms = limits.1.0;
      rate_limit_global = limits.1.1.0;
      rate_limit_writes = limits.1.1.1;
      retention_sweep_interval_ms = retention.1.0;
      retention_max_age_ms = retention.1.1;
      circuit_breaker_error_threshold_percent = breaker.0;
      circuit_breaker_volume_threshold = breaker.1.0;
      circuit_breaker_timeout_ms = breaker.1.1.0;
      circuit_breaker_reset_ms = breaker.1.1.1;
    }
