-- ===== src/Shared/Logger.antt =====
-- shared/src/logger/createLogger.ts: the settings of the logger that the services are given. pino is not
-- part of the repository: what a log line does to the outside world is a parameter.
use ecommerce_microservice.Prelude.{String, Bool, not, ◌&&◌, Option, none, some, str_eq}

pub data LogLevel : Type 0 where
  info warn error : LogLevel

abbrev pub Logger : Type 0 → Type 0
Logger W = LogLevel → String → W → W

pub record LoggerOptions : Type 0 where
  pub service_name : String
  pub level : Option String

-- What `pino` is called with; the transport is pino-pretty or undefined.
pub record PinoSettings : Type 0 where
  pub name : String
  pub level : String
  pub pretty_transport : Bool
  pub base_service : String

-- `a ?? b`
abbrev pub text_or : Option String → String → String
text_or none b = b
text_or (some a) b = a

-- `level ?? process.env.LOG_LEVEL ?? 'info'`
abbrev pub resolved_level : Option String → Option String → String
resolved_level level log_level = text_or level (text_or log_level "info")

abbrev pub is_text? : String → Option String → Bool
is_text? t none = Bool.false
is_text? t (some s) = str_eq s t

-- Of the environment, `NODE_ENV` and the resolved level.
abbrev pub uses_pretty_transport : Option String → String → Bool
uses_pretty_transport node_env level =
    not (is_text? "production" node_env) && not (str_eq level "silent")

-- The two optional texts are `NODE_ENV` and `LOG_LEVEL` of the environment.
unfoldable pub create_logger : LoggerOptions → Option String → Option String → PinoSettings
create_logger options node_env log_level =
    let level = resolved_level options.level log_level in
    record {
      name = options.service_name;
      level = level;
      pretty_transport = uses_pretty_transport node_env level;
      base_service = options.service_name;
    }
