-- ===== src/Order/Server.antt =====
-- order-service/src/server.ts and routes/index.ts: what the process sets up, and what it takes down.
use ecommerce_microservice.Prelude.{ℕ, String, Bool, ◌&&◌, List}
use ecommerce_microservice.Shared.Action.{Action, pure, effect, ◌>>=◌, ◌>>◌}
use ecommerce_microservice.Shared.Dtos.{PaymentRetryRequestedEvent}
use ecommerce_microservice.Shared.Topology.{Declaration, assert_payment_retry_topology}
use ecommerce_microservice.Shared.Broker.{ConfirmChannel}
use ecommerce_microservice.Shared.Connection
use ecommerce_microservice.Shared.Connection.{
  Amqp, RabbitMqConnection, RabbitMqConnectionOptions, outside, logger_inside,
}
use ecommerce_microservice.Shared.Launch.{Launch, launch}
use ecommerce_microservice.Shared.Middleware.{Gate, Health, health_check_handler}
use ecommerce_microservice.Mongo.{Mongoose, Collection}
use ecommerce_microservice.Order.Model.{Order}
use ecommerce_microservice.Order.Module.{Axios, Env, OrderRouter, create_order_module}
use ecommerce_microservice.Order.Routes.{OrderSchemas}

-- The health route, from the two flags.
unfoldable pub health_route : Bool → Bool → ℕ → ℕ × Health
health_route is_database_connected is_rabbitmq_ready now =
    health_check_handler "order-service" (is_database_connected && is_rabbitmq_ready) now

module _ {W C K : Type 0} (amqp : Amqp W C K) (options : RabbitMqConnectionOptions W)
    (wait : ℕ → W → W) (assert_all : K → List Declaration → Action W (Unit {0}))
    (publisher : K → ConfirmChannel W PaymentRetryRequestedEvent) (mongoose : Mongoose W)
    (uri : String) (axios : Axios W) (env : Env) (orders : Collection W Order)
    (uuid : W → String × W) (now : W → ℕ × W) (schemas : OrderSchemas)
    (creation_limiter status_limiter : Gate W) (listen : W → W) where
  -- The answer is the router that the server listens with.
  unfoldable pub bootstrap : Action (RabbitMqConnection W C K) (OrderRouter W)
  bootstrap = do
    outside (mongoose.connect uri)
    channel ← Connection.connect amqp options wait
    outside (assert_all channel assert_payment_retry_topology)
    outside (effect listen)
    pure (
        create_order_module axios env options.logger wait (publisher channel) orders uuid now
          schemas creation_limiter status_limiter)

  unfoldable pub start :
      RabbitMqConnection W C K → Launch (OrderRouter W) × RabbitMqConnection W C K
  start = launch (logger_inside options.logger) "order-service" bootstrap

  -- `onShutdown`
  unfoldable pub shut_down : Action (RabbitMqConnection W C K) (Unit {0})
  shut_down = do Connection.close amqp options wait; outside mongoose.disconnect
