-- ===== src/Customer/Config.antt =====
-- customer-service/src: config/env.ts and middlewares/schemas.ts.
use ecommerce_microservice.Prelude.{ℕ, String, [], ◌∷◌}
use ecommerce_microservice.Shared.Json.{Json}
use ecommerce_microservice.Shared.Launch.{Launch, EnvReading, load_env}
use ecommerce_microservice.Shared.Schema.{
  Schema, env_schema, url_rule, internal_key_rule, needed, closed, text, pattern,
}

-- Env
pub record ProcessEnv : Type 0 where
  pub node_env : String
  pub port : ℕ
  pub mongo_uri : String
  pub internal_api_key : String
  pub log_level : String

abbrev pub process_schema : Schema
process_schema = env_schema 3001 (url_rule "MONGO_URI" ∷ internal_key_rule 16 ∷ [])

-- `loadEnv`
unfoldable pub load :
    {W : Type 0}
    → (String → W → W)
    → (Schema → Json → EnvReading ProcessEnv)
    → Json
    → W
    → Launch ProcessEnv × W
load console_error validate = load_env console_error validate "customer-service" process_schema

abbrev pub get_customer_params_schema : Schema
get_customer_params_schema = closed (needed "customerId" text (pattern "^\\d{3}$" ∷ []) ∷ [])
