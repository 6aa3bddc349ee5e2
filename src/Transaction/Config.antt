-- ===== src/Transaction/Config.antt =====
-- transaction-worker/src/config/env.ts.
use ecommerce_microservice.Prelude.{ℕ, String, [], ◌∷◌}
use ecommerce_microservice.Shared.Json.{Json}
use ecommerce_microservice.Shared.Launch.{Launch, EnvReading, load_env}
use ecommerce_microservice.Shared.Schema.{Schema, env_schema, url_rule}

-- Env
pub record ProcessEnv : Type 0 where
  pub node_env : String
  pub port : ℕ
  pub mongo_uri : String
  pub rabbitmq_url : String
  pub log_level : String

abbrev pub process_schema : Schema
process_schema = env_schema 3005 (url_rule "MONGO_URI" ∷ url_rule "RABBITMQ_URL" ∷ [])

-- `loadEnv`
unfoldable pub load :
    {W : Type 0}
    → (String → W → W)
    → (Schema → Json → EnvReading ProcessEnv)
    → Json
    → W
    → Launch ProcessEnv × W
load console_error validate = load_env console_error validate "transaction-worker" process_schema
