-- ===== src/Order/Config.antt =====
-- order-service/src: config/env.ts and middlewares/schemas.ts.
use ecommerce_microservice.Prelude.{ℕ, String, [], ◌∷◌}
use ecommerce_microservice.Shared.Json.{Json}
use ecommerce_microservice.Shared.Launch.{Launch, EnvReading, load_env}
use ecommerce_microservice.Shared.Schema.{
  Schema, env_schema, url_rule, internal_key_rule, needed, optional, closed, text, number, boolean,
  one_of, positive,
}

-- Env
pub record ProcessEnv : Type 0 where
  pub node_env : String
  pub port : ℕ
  pub mongo_uri : String
  pub rabbitmq_url : String
  pub payment_service_url : String
  pub product_service_url : String
  pub customer_service_url : String
  pub internal_api_key : String
  pub log_level : String

abbrev pub process_schema : Schema
process_schema = env_schema 3003 (
    url_rule "MONGO_URI"
    ∷ url_rule "RABBITMQ_URL"
    ∷ url_rule "PAYMENT_SERVICE_URL"
    ∷ url_rule "PRODUCT_SERVICE_URL"
    ∷ url_rule "CUSTOMER_SERVICE_URL"
    ∷ internal_key_rule 8
    ∷ [])

-- `loadEnv`
unfoldable pub load :
    {W : Type 0}
    → (String → W → W)
    → (Schema → Json → EnvReading ProcessEnv)
    → Json
    → W
    → Launch ProcessEnv × W
load console_error validate = load_env console_error validate "order-service" process_schema

abbrev pub create_order_schema : Schema
create_order_schema = closed (
    needed "customerId" text []
    ∷ needed "productId" text []
    ∷ optional "amount" number (positive ∷ [])
    ∷ [])

abbrev pub order_id_params_schema : Schema
order_id_params_schema = closed (needed "orderId" text [] ∷ [])

abbrev pub update_payment_status_schema : Schema
update_payment_status_schema = closed (
    needed "paymentInitiated" boolean []
    ∷ needed "orderStatus" text (
        one_of ("pending" ∷ "stock_reserved" ∷ "payment_pending" ∷ "confirmed" ∷ "failed" ∷ [])
        ∷ [])
    ∷ [])
