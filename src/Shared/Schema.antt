-- ===== src/Shared/Schema.antt =====
-- Joi schemas as data: config/env.ts and middlewares/schemas.ts of the services declare one rule for each
-- key. What Joi's `validate` makes of a schema is not part of the repository.
use ecommerce_microservice.Prelude.{
  ℕ, String, Bool, true, false, Option, none, some, List, [], ◌∷◌, ◌++◌,
}
use ecommerce_microservice.Shared.Json.{Json, num, str}

-- `Joi.string()`, `Joi.number()` and `Joi.boolean()`
pub data Kind : Type 0 where
  text number boolean : Kind

-- The calls that are chained to them.
pub data Check : Type 0 where
  uri : Check
  min_length : ℕ → Check
  pattern : String → Check
  one_of : List String → Check
  integer : Check
  at_least : ℕ → Check
  at_most : ℕ → Check
  positive : Check

pub record Rule : Type 0 where
  pub key : String
  pub kind : Kind
  pub checks : List Check
  pub required : Bool
  pub fallback : Option Json

-- `.unknown(true)` lets keys without a rule pass.
pub record Schema : Type 0 where
  pub rules : List Rule
  pub unknown : Bool

-- `.required()`, `.optional()` and `.default(…)`
abbrev pub needed : String → Kind → List Check → Rule
needed key kind checks = record {
  key = key;
  kind = kind;
  checks = checks;
  required = true;
  fallback = none;
}

abbrev pub optional : String → Kind → List Check → Rule
optional key kind checks = record {
  key = key;
  kind = kind;
  checks = checks;
  required = false;
  fallback = none;
}

abbrev pub defaulting : String → Kind → List Check → Json → Rule
defaulting key kind checks value = record {
  key = key;
  kind = kind;
  checks = checks;
  required = false;
  fallback = some value;
}

-- A schema that refuses unknown keys.
abbrev pub closed : List Rule → Schema
closed rules = record { rules = rules; unknown = false }

-- What the environment schemas have in common.
abbrev pub node_env_rule : Rule
node_env_rule =
    defaulting "NODE_ENV" text (one_of ("development" ∷ "production" ∷ "test" ∷ []) ∷ [])
      (str "development")

abbrev pub port_rule : ℕ → Rule
port_rule port = defaulting "PORT" number [] (num port)

abbrev pub url_rule : String → Rule
url_rule key = needed key text (uri ∷ [])

abbrev pub internal_key_rule : ℕ → Rule
internal_key_rule least = needed "INTERNAL_API_KEY" text (min_length least ∷ [])

abbrev pub log_level_rule : Rule
log_level_rule = defaulting "LOG_LEVEL" text [] (str "info")

-- `Joi.object({ NODE_ENV, PORT, …, LOG_LEVEL }).unknown(true)`
abbrev pub env_schema : ℕ → List Rule → Schema
env_schema port own = record {
  rules = node_env_rule ∷ port_rule port ∷ own ++ log_level_rule ∷ [];
  unknown = true;
}
