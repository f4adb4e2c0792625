-- ===== src/Config/Valid.antt =====
-- What the schema guarantees of an environment that it accepts.
use triage_engine.Prelude.{Text, codes, Bool, Option, ◌≡◌, arith, valid, both}
use triage_engine.Config.{EnvVars}
use triage_engine.Config.Schema.{
  validate_env, read_server, read_postgres, read_redis, read_pipeline, read_outbox, read_mistral,
  read_recovery, read_limits, read_retention, read_breaker,
}
use triage_engine.Config.Layout.{env_of}
use triage_engine.Config.Yields.{
  Yields, both-Yields, int-Yields, percent-Yields, string-Yields, url-Yields, IsOptionalUrl,
  optional-Yields, Any, AtLeast, IsPercent, HasText, IsUrl, Both, Any-Yields,
}
use triage_engine.Config.Bounds.{IsValidEnv, AreChecked, map-Yields, AreChecked-IsValidEnv}

module _ (is_url : Text → Bool) (config : Text → Option Text) where
  server-Yields : Yields (read_server is_url config) (Both Any (Both (AtLeast 1) Any))
  unfolding read_server
  server-Yields =
      both-Yields (Any-Yields _) (both-Yields (int-Yields _ _ _ _ (omega arith)) (Any-Yields _))

  postgres-Yields :
      Yields
        (read_postgres is_url config)
        (Both HasText (Both (AtLeast 1) (Both HasText (Both HasText (Both HasText Any)))))
  unfolding read_postgres
  postgres-Yields = both-Yields (string-Yields _ _ _ (omega arith)) (
      both-Yields (int-Yields _ _ _ _ (omega arith)) (
        both-Yields (string-Yields _ _ _ (omega arith)) (
          both-Yields (string-Yields _ _ _ (omega arith))
            (both-Yields (string-Yields _ _ _ (omega arith)) (Any-Yields _)))))

  redis-Yields : Yields (read_redis is_url config) (Both HasText (Both (AtLeast 1) Any))
  unfolding read_redis
  redis-Yields = both-Yields (string-Yields _ _ _ (omega arith)) (
      both-Yields (int-Yields _ _ _ _ (omega arith))
        (Any-Yields (valid (config (codes "REDIS_PASSWORD")))))

  pipeline-Yields :
      Yields
        (read_pipeline is_url config)
        (Both (AtLeast 1) (Both (AtLeast 0) (Both (AtLeast 0) (AtLeast 1000))))
  unfolding read_pipeline
  pipeline-Yields = both-Yields (int-Yields _ _ _ _ (omega arith)) (
      both-Yields (int-Yields _ _ _ _ (omega arith))
        (both-Yields (int-Yields _ _ _ _ (omega arith)) (int-Yields _ _ _ _ (omega arith))))

  outbox-Yields : Yields (read_outbox is_url config) (
      Both (AtLeast 100) (
        Both (AtLeast 1) (
          Both
            (AtLeast 1)
            (Both (AtLeast 0) (IsUrl is_url (codes "http://localhost:3000/_sink/webhook"))))))
  unfolding read_outbox
  outbox-Yields = both-Yields (int-Yields _ _ _ _ (omega arith)) (
      both-Yields (int-Yields _ _ _ _ (omega arith)) (
        both-Yields (int-Yields _ _ _ _ (omega arith))
          (both-Yields (int-Yields _ _ _ _ (omega arith)) (url-Yields _ _ _ _))))

  mistral-Yields :
      Yields
        (read_mistral is_url config)
        (Both Any (Both HasText (Both (AtLeast 100) (Both (AtLeast 0) (IsOptionalUrl is_url)))))
  unfolding read_mistral
  mistral-Yields = both-Yields (Any-Yields (valid (config (codes "MISTRAL_API_KEY")))) (
      both-Yields (string-Yields _ _ _ (omega arith)) (
        both-Yields (int-Yields _ _ _ _ (omega arith))
          (both-Yields (int-Yields _ _ _ _ (omega arith)) (optional-Yields _ _ _))))

  recovery-Yields :
      Yields (read_recovery is_url config) (
        Both (AtLeast 0) (Both (AtLeast 1000) (Both (AtLeast 1000) (Both (AtLeast 0) (AtLeast 1)))))
  unfolding read_recovery
  recovery-Yields = both-Yields (int-Yields _ _ _ _ (omega arith)) (
      both-Yields (int-Yields _ _ _ _ (omega arith)) (
        both-Yields (int-Yields _ _ _ _ (omega arith))
          (both-Yields (int-Yields _ _ _ _ (omega arith)) (int-Yields _ _ _ _ (omega arith)))))

  limits-Yields :
      Yields
        (read_limits is_url config)
        (Both Any (Both (AtLeast 1000) (Both (AtLeast 1) (AtLeast 1))))
  unfolding read_limits
  limits-Yields = both-Yields (Any-Yields _) (
      both-Yields (int-Yields _ _ _ _ (omega arith))
        (both-Yields (int-Yields _ _ _ _ (omega arith)) (int-Yields _ _ _ _ (omega arith))))

  retention-Yields :
      Yields (read_retention is_url config) (Both Any (Both (AtLeast 60000) (AtLeast 60000)))
  unfolding read_retention
  retention-Yields =
      both-Yields (Any-Yields _)
        (both-Yields (int-Yields _ _ _ _ (omega arith)) (int-Yields _ _ _ _ (omega arith)))

  breaker-Yields :
      Yields
        (read_breaker is_url config)
        (Both IsPercent (Both (AtLeast 1) (Both (AtLeast 100) (AtLeast 1000))))
  unfolding read_breaker
  breaker-Yields = both-Yields (percent-Yields _ 50 _ (omega arith) (omega arith)) (
      both-Yields (int-Yields _ _ _ _ (omega arith))
        (both-Yields (int-Yields _ _ _ _ (omega arith)) (int-Yields _ _ _ _ (omega arith))))

  settings-Yields :
      Yields
        (both (read_server is_url config) (
          both (read_postgres is_url config) (
            both (read_redis is_url config) (
              both (read_pipeline is_url config) (
                both (read_outbox is_url config) (
                  both (read_mistral is_url config) (
                    both (read_recovery is_url config) (
                      both
                        (read_limits is_url config)
                        (both (read_retention is_url config) (read_breaker is_url config))))))))))
        (AreChecked is_url)
  settings-Yields = both-Yields server-Yields (
      both-Yields postgres-Yields (
        both-Yields redis-Yields (
          both-Yields pipeline-Yields (
            both-Yields outbox-Yields (
              both-Yields mistral-Yields (
                both-Yields recovery-Yields
                  (both-Yields limits-Yields (both-Yields retention-Yields breaker-Yields))))))))

  -- An environment that the service starts with is within the bounds of the schema, whatever
  -- variables are set to whatever texts: the defaults are, too.
  pub validate_env-IsValidEnv :
      (env : EnvVars) → validate_env is_url config ≡ valid env → IsValidEnv is_url env
  unfolding validate_env
  validate_env-IsValidEnv =
      map-Yields env_of _ (IsValidEnv is_url)
        (λ settings e. AreChecked-IsValidEnv is_url settings (settings-Yields settings e))
