-- ===== src/Payment/Config.antt =====
-- payment-service/src: config/env.ts and middlewares/schemas.ts.
use ecommerce_microservice.Prelude.{ℕ, String, [], ◌∷◌}
use ecommerce_microservice.Shared.Json.{Json}
use ecommerce_microservice.Shared.Launch.{Launch, EnvReading, load_env}
use ecommerce_microservice.Shared.Schema.{
  Schema, env_schema, url_rule, internal_key_rule, needed, closed, text, number, positive,
}

-- Env
pub record ProcessEnv : Type 0 where
  pub node_env : String
  pub port : ℕ
  pub rabbitmq_url : String
  pub internal_api_key : String
  pub log_level : String

abbrev pub process_schema : Schema
process_schema = env_schema 3004 (url_rule "RABBITMQ_URL" ∷ internal_key_rule 8 ∷ [])

-- `loadEnv`
unfoldable pub load :
    {W : Type 0}
    → (String → W → W)
    → (Schema → Json → EnvReading ProcessEnv)
    → Json
    → W
    → Launch ProcessEnv × W
load console_error validate = load_env console_error validate "payment-service" process_schema

abbrev pub initiate_payment_schema : Schema
initiate_payment_schema = closed (
    needed "customerId" text []
    ∷ needed "orderId" text []
    ∷ needed "productId" text []
    ∷ needed "amount" number (positive ∷ [])
    ∷ [])
