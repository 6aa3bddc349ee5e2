-- ===== src/Product/Server.antt =====
-- product-service/src/server.ts: what the process sets up, and what it takes down.
use ecommerce_microservice.Prelude.{ℕ, String, Bool, Option}
use ecommerce_microservice.Shared.Json.{Json}
use ecommerce_microservice.Shared.Action.{Outcome, Action, pure, effect, ◌>>◌}
use ecommerce_microservice.Shared.Logger.{Logger}
use ecommerce_microservice.Shared.Headers.{Headers}
use ecommerce_microservice.Shared.Metrics.{Registry}
use ecommerce_microservice.Shared.Middleware.{Gate}
use ecommerce_microservice.Shared.App.{HttpCall, Response}
use ecommerce_microservice.Shared.Launch.{Launch, launch}
use ecommerce_microservice.Mongo.{Mongoose, Collection}
use ecommerce_microservice.Product.Model.{Product}
use ecommerce_microservice.Product.Routes.{ProductSchemas}
use ecommerce_microservice.Product.App.{ProductContent, create_app}

module _ {W : Type 0} (logger : Logger W) (schemas : ProductSchemas) (internal_api_key : String)
    (read_limiter mutation_limiter : Gate W) (products : Collection W Product)
    (registry : Registry W) (is_database_connected : W → Bool) (now : W → ℕ × W)
    (matches : String → String → HttpCall → Option Json) (helmet : Headers → Headers)
    (json : String → Outcome Json) (uuid : W → String × W) (mongoose : Mongoose W) (uri : String)
    (listen : W → W) where
  -- The answer is the app that the server listens with.
  unfoldable pub bootstrap : Action W (HttpCall → W → Option (Response ProductContent) × W)
  bootstrap = do
    mongoose.connect uri
    effect listen
    pure (
        create_app logger schemas internal_api_key read_limiter mutation_limiter products registry
          is_database_connected now matches helmet json uuid)

  unfoldable pub start : W → Launch (HttpCall → W → Option (Response ProductContent) × W) × W
  start = launch logger "product-service" bootstrap

  -- `onShutdown`
  unfoldable pub shut_down : Action W (Unit {0})
  shut_down = mongoose.disconnect
