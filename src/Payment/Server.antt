-- ===== src/Payment/Server.antt =====
-- payment-service/src/server.ts: what the process sets up, and what it takes down.
use ecommerce_microservice.Prelude.{ℕ, String, Bool, Option, List}
use ecommerce_microservice.Shared.Json.{Json}
use ecommerce_microservice.Shared.Action.{Outcome, Action, pure, effect, ◌>>=◌, ◌>>◌}
use ecommerce_microservice.Shared.Logger.{Logger}
use ecommerce_microservice.Shared.Headers.{Headers}
use ecommerce_microservice.Shared.Metrics.{Registry}
use ecommerce_microservice.Shared.Middleware.{Validation}
use ecommerce_microservice.Shared.Broker.{ConfirmChannel}
use ecommerce_microservice.Shared.Dtos.{
  InitiatePaymentRequest, InitiatePaymentResponse, TransactionCreatedEvent,
}
use ecommerce_microservice.Shared.Topology.{Declaration}
use ecommerce_microservice.Shared.Connection.{Amqp, RabbitMqConnectionOptions, outside}
use ecommerce_microservice.Shared.App.{HttpCall, Response}
use ecommerce_microservice.Shared.Launch.{Launch, launch}
use ecommerce_microservice.Payment.Rabbitmq.{
  Rabbitmq, connect_rabbitmq, get_publisher, close_rabbitmq, on_object,
}
use ecommerce_microservice.Payment.App.{create_app}

-- `logger` where the module's variables are part of the world.
abbrev pub logger_of : {W C K : Type 0} → Logger W → Logger (Rabbitmq W C K)
logger_of logger level message m = record m {
  object = record m.object { world = logger level message m.object.world };
}

module _ {W C K : Type 0} (amqp : Amqp W C K) (options : RabbitMqConnectionOptions W)
    (wait : ℕ → W → W) (assert_all : K → List Declaration → Action W (Unit {0}))
    (publisher : K → ConfirmChannel W TransactionCreatedEvent) (uuid : W → String × W)
    (now : W → ℕ × W) (schema : Json → Validation InitiatePaymentRequest)
    (internal_api_key : String) (registry : Registry W) (is_ready : W → Bool)
    (matches : String → String → HttpCall → Option Json) (helmet : Headers → Headers)
    (json : String → Outcome Json) (listen : W → W) where
  -- The answer is the app that the server listens with, over the publisher that there is now. `is_ready`
  -- is `isRabbitMQReady` as a request finds it in the world.
  unfoldable pub bootstrap :
      Action (Rabbitmq W C K) (HttpCall → W → Option (Response InitiatePaymentResponse) × W)
  bootstrap = do
    connect_rabbitmq amqp options wait assert_all
    channel ← get_publisher
    on_object (outside (effect listen))
    pure (
        create_app options.logger (publisher channel) uuid now schema internal_api_key registry
          is_ready matches helmet json)

  unfoldable pub start :
      Rabbitmq W C K
      → Launch (HttpCall → W → Option (Response InitiatePaymentResponse) × W) × Rabbitmq W C K
  start = launch (logger_of options.logger) "payment-service" bootstrap

  -- `onShutdown`
  unfoldable pub shut_down : Action (Rabbitmq W C K) (Unit {0})
  shut_down = close_rabbitmq amqp options wait assert_all
