-- ===== src/Retry/Config.antt =====
-- payment-retry-worker/src/config/env.ts.
use ecommerce_microservice.Prelude.{ℕ, String, [], ◌∷◌}
use ecommerce_microservice.Shared.Json.{Json}
use ecommerce_microservice.Shared.Launch.{Launch, EnvReading, load_env}
use ecommerce_microservice.Shared.Schema.{Schema, env_schema, url_rule, internal_key_rule}

-- Env
pub record ProcessEnv : Type 0 where
  pub node_env : String
  pub port : ℕ
  pub rabbitmq_url : String
  pub payment_service_url : String
  pub order_service_url : String
  pub internal_api_key : String
  pub log_level : String

abbrev pub process_schema : Schema
process_schema = env_schema 3006 (
    url_rule "RABBITMQ_URL"
    ∷ url_rule "PAYMENT_SERVICE_URL"
    ∷ url_rule "ORDER_SERVICE_URL"
    ∷ internal_key_rule 8
    ∷ [])

-- `loadEnv`
unfoldable pub load :
    {W : Type 0}
    → (String → W → W)
    → (Schema → Json → EnvReading ProcessEnv)
    → Json
    → W
    → Launch ProcessEnv × W
load console_error validate = load_env console_error validate "payment-retry-worker" process_schema
