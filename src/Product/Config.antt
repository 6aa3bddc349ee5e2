-- ===== src/Product/Config.antt =====
-- product-service/src: config/env.ts and middlewares/schemas.ts.
use ecommerce_microservice.Prelude.{ℕ, String, [], ◌∷◌}
use ecommerce_microservice.Shared.Json.{Json, num}
use ecommerce_microservice.Shared.Launch.{Launch, EnvReading, load_env}
use ecommerce_microservice.Shared.Schema.{
  Schema, env_schema, url_rule, internal_key_rule, needed, defaulting, closed, text, number,
  integer, at_least, at_most, positive, pattern,
}

-- Env
pub record ProcessEnv : Type 0 where
  pub node_env : String
  pub port : ℕ
  pub mongo_uri : String
  pub internal_api_key : String
  pub log_level : String

abbrev pub process_schema : Schema
process_schema = env_schema 3002 (url_rule "MONGO_URI" ∷ internal_key_rule 16 ∷ [])

-- `loadEnv`
unfoldable pub load :
    {W : Type 0}
    → (String → W → W)
    → (Schema → Json → EnvReading ProcessEnv)
    → Json
    → W
    → Launch ProcessEnv × W
load console_error validate = load_env console_error validate "product-service" process_schema

abbrev pub get_product_params_schema : Schema
get_product_params_schema = closed (needed "productId" text (pattern "^\\d{3}$" ∷ []) ∷ [])

abbrev pub list_products_query_schema : Schema
list_products_query_schema = closed (
    defaulting "page" number (integer ∷ at_least 1 ∷ []) (num 1)
    ∷ defaulting "pageSize" number (integer ∷ at_least 1 ∷ at_most 100 ∷ []) (num 20)
    ∷ [])

abbrev pub stock_mutation_schema : Schema
stock_mutation_schema = closed (needed "quantity" number (integer ∷ positive ∷ []) ∷ [])
