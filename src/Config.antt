-- ===== src/Config.antt =====
-- config/env.validation.ts: the validated environment and the schema's defaults. `Number()` on a
-- variable is Config/Number, the schema Config/Schema.
pub mod Number
pub mod Field
pub mod Layout
pub mod Schema
pub mod Yields
pub mod Bounds
pub mod Valid
pub mod Print
pub mod Connections
use triage_engine.Prelude.{ℕ, Text, codes, Bool, Option, none, false}

pub data NodeEnv : Type 0 where
  development test production : NodeEnv

pub data LogLevel : Type 0 where
  trace debug info warn error fatal : LogLevel

pub record EnvVars : Type 0 where
  pub node_env : NodeEnv
  pub port : ℕ
  pub log_level : LogLevel
  pub postgres_host : Text
  pub postgres_port : ℕ
  pub postgres_user : Text
  pub postgres_password : Text
  pub postgres_db : Text
  pub db_run_migrations_on_boot : Bool
  pub redis_host : Text
  pub redis_port : ℕ
  pub redis_password : Option Text
  pub pipeline_max_attempts : ℕ
  pub pipeline_backoff_base_ms : ℕ
  pub pipeline_backoff_max_ms : ℕ
  pub idempotency_lease_ms : ℕ
  pub outbox_relay_poll_interval_ms : ℕ
  pub outbox_relay_batch_size : ℕ
  pub outbox_max_attempts : ℕ
  pub outbox_backoff_base_ms : ℕ
  pub webhook_target_url : Text
  pub mistral_api_key : Option Text
  pub mistral_model : Text
  pub mistral_timeout_ms : ℕ
  pub mistral_max_retries : ℕ
  pub mistral_server_url : Option Text
  pub enrichment_upgrade_max_attempts : ℕ
  pub enrichment_upgrade_backoff_ms : ℕ
  pub reconcile_sweep_interval_ms : ℕ
  pub reconcile_degraded_after_ms : ℕ
  pub reconcile_batch_size : ℕ
  pub trust_proxy : Bool
  pub rate_limit_ttl_ms : ℕ
  pub rate_limit_global : ℕ
  pub rate_limit_writes : ℕ
  pub retention_enabled : Bool
  pub retention_sweep_interval_ms : ℕ
  pub retention_max_age_ms : ℕ
  pub circuit_breaker_error_threshold_percent : ℕ
  pub circuit_breaker_volume_threshold : ℕ
  pub circuit_breaker_timeout_ms : ℕ
  pub circuit_breaker_reset_ms : ℕ

-- The defaults of the schema.
abbrev pub default_env : EnvVars
default_env = record {
  node_env = development;
  port = 3000;
  log_level = info;
  postgres_host = codes "localhost";
  postgres_port = 5432;
  postgres_user = codes "triage";
  postgres_password = codes "triage";
  postgres_db = codes "triage";
  db_run_migrations_on_boot = false;
  redis_host = codes "localhost";
  redis_port = 6379;
  redis_password = none;
  pipeline_max_attempts = 5;
  pipeline_backoff_base_ms = 2000;
  pipeline_backoff_max_ms = 60000;
  idempotency_lease_ms = 300000;
  outbox_relay_poll_interval_ms = 1000;
  outbox_relay_batch_size = 20;
  outbox_max_attempts = 10;
  outbox_backoff_base_ms = 2000;
  webhook_target_url = codes "http://localhost:3000/_sink/webhook";
  mistral_api_key = none;
  mistral_model = codes "mistral-small-latest";
  mistral_timeout_ms = 10000;
  mistral_max_retries = 2;
  mistral_server_url = none;
  enrichment_upgrade_max_attempts = 5;
  enrichment_upgrade_backoff_ms = 30000;
  reconcile_sweep_interval_ms = 60000;
  reconcile_degraded_after_ms = 300000;
  reconcile_batch_size = 50;
  trust_proxy = false;
  rate_limit_ttl_ms = 60000;
  rate_limit_global = 120;
  rate_limit_writes = 20;
  retention_enabled = false;
  retention_sweep_interval_ms = 3600000;
  retention_max_age_ms = 604800000;
  circuit_breaker_error_threshold_percent = 50;
  circuit_breaker_volume_threshold = 5;
  circuit_breaker_timeout_ms = 12000;
  circuit_breaker_reset_ms = 30000;
}
