-- ===== src/Config/Connections.antt =====
-- config/data-source.ts and redis/redis.constants.ts: what the database and Redis are reached by.
use triage_engine.Prelude.{ℕ, Text, codes, Bool, true, false, List, [], ◌∷◌, Option, none, some}
use triage_engine.Config.{EnvVars, NodeEnv, development, test, production}

pub record DataSourceOptions : Type 0 where
  pub kind : Text
  pub host : Text
  pub port : ℕ
  pub username : Text
  pub password : Text
  pub database : Text
  pub synchronize : Bool
  pub migrations_table_name : Text
  pub logging : List Text

abbrev pub logging_of : NodeEnv → List Text
logging_of development = codes "error" ∷ codes "warn" ∷ codes "migration" ∷ []
logging_of test = codes "error" ∷ []
logging_of production = codes "error" ∷ []

-- The globs for entities and migrations are left out.
abbrev pub build_data_source_options : EnvVars → DataSourceOptions
build_data_source_options env = record {
  kind = codes "postgres";
  host = env.postgres_host;
  port = env.postgres_port;
  username = env.postgres_user;
  password = env.postgres_password;
  database = env.postgres_db;
  synchronize = false;
  migrations_table_name = codes "typeorm_migrations";
  logging = logging_of env.node_env;
}

pub record RedisOptions : Type 0 where
  pub host : Text
  pub port : ℕ
  pub password : Option Text
  pub max_retries_per_request : Option ℕ
  pub enable_ready_check : Bool

-- `env.REDIS_PASSWORD || undefined`
abbrev pub unless_empty : Option Text → Option Text
unless_empty none = none
unless_empty (some []) = none
unless_empty (some (c ∷ cs)) = some (c ∷ cs)

abbrev pub build_redis_options : EnvVars → RedisOptions
build_redis_options env = record {
  host = env.redis_host;
  port = env.redis_port;
  password = unless_empty env.redis_password;
  max_retries_per_request = none;
  enable_ready_check = true;
}
