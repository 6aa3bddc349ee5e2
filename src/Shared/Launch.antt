-- ===== src/Shared/Launch.antt =====
-- How the processes start: `loadEnv` of the services' config/env.ts, and the end of their server.ts or
-- worker.ts. Joi's `validate` and the console are parameters.
use ecommerce_microservice.Prelude.{ℕ, String}
use ecommerce_microservice.Shared.Json.{Json}
use ecommerce_microservice.Shared.Errors.{◌++ˢ◌}
use ecommerce_microservice.Shared.Action.{Outcome, ok, throw, Action}
use ecommerce_microservice.Shared.Logger.{Logger, LogLevel}
use ecommerce_microservice.Shared.Schema.{Schema}

-- A process goes on with a value, or has exited with a code.
pub data Launch (A : Type 0) : Type 0 where
  running : A → Launch A
  exited : ℕ → Launch A

-- What `validate` answers: a value with defaults, or the message of its error.
pub data EnvReading (E : Type 0) : Type 0 where
  read : E → EnvReading E
  refused : String → EnvReading E

module _ {W E : Type 0} (console_error : String → W → W) where
  abbrev pub loaded : String → EnvReading E → W → Launch E × W
  loaded service_name (read env) w = (running env, w)
  loaded service_name (refused message) w = (
    exited 1,
    console_error ("[" ++ˢ service_name ++ˢ "] Invalid environment configuration: " ++ˢ message) w,
  )

  unfoldable pub load_env :
      (Schema → Json → EnvReading E) → String → Schema → Json → W → Launch E × W
  load_env validate service_name schema process_env =
      loaded service_name (validate schema process_env)

module _ {W A : Type 0} (logger : Logger W) where
  abbrev pub caught : String → Outcome A × W → Launch A × W
  caught service_name (ok a, w) = (running a, w)
  caught service_name (throw e, w) =
      (exited 1, logger LogLevel.error ("Failed to start " ++ˢ service_name) w)

  -- `bootstrap().catch(…)`
  unfoldable pub launch : String → Action W A → W → Launch A × W
  launch service_name bootstrap w = caught service_name (bootstrap w)
