-- ===== src/Customer/Server.antt =====
-- customer-service/src/server.ts: what the process sets up, and what it takes down.
use ecommerce_microservice.Prelude.{ℕ, String, Bool, Option}
use ecommerce_microservice.Shared.Json.{Json}
use ecommerce_microservice.Shared.Action.{Outcome, Action, pure, effect, ◌>>◌}
use ecommerce_microservice.Shared.Logger.{Logger}
use ecommerce_microservice.Shared.Headers.{Headers}
use ecommerce_microservice.Shared.Metrics.{Registry}
use ecommerce_microservice.Shared.Middleware.{Gate, Validation}
use ecommerce_microservice.Shared.App.{HttpCall, Response}
use ecommerce_microservice.Shared.Launch.{Launch, launch}
use ecommerce_microservice.Mongo.{Mongoose, Collection}
use ecommerce_microservice.Customer.Service.{Customer}
use ecommerce_microservice.Customer.App.{create_app}

module _ {W : Type 0} (logger : Logger W) (schema : Json → Validation String)
    (internal_api_key : String) (lookup_limiter : Gate W) (customers : Collection W Customer)
    (setter : String → String) (registry : Registry W) (is_database_connected : W → Bool)
    (now : W → ℕ × W) (matches : String → String → HttpCall → Option Json)
    (helmet : Headers → Headers) (json : String → Outcome Json) (uuid : W → String × W)
    (mongoose : Mongoose W) (uri : String) (listen : W → W) where
  -- The answer is the app that the server listens with.
  unfoldable pub bootstrap : Action W (HttpCall → W → Option (Response Customer) × W)
  bootstrap = do
    mongoose.connect uri
    effect listen
    pure (
        create_app logger schema internal_api_key lookup_limiter customers setter registry
          is_database_connected now matches helmet json uuid)

  unfoldable pub start : W → Launch (HttpCall → W → Option (Response Customer) × W) × W
  start = launch logger "customer-service" bootstrap

  -- `onShutdown`
  unfoldable pub shut_down : Action W (Unit {0})
  shut_down = mongoose.disconnect
