-- ===== src/Transaction/Worker.antt =====
-- transaction-worker/src/worker.ts and monitoring.ts: what the process sets up, and what it takes down.
use ecommerce_microservice.Prelude.{ℕ, String, Bool, ◌&&◌, List}
use ecommerce_microservice.Shared.Action.{Action, effect, ◌>>=◌, ◌>>◌}
use ecommerce_microservice.Shared.Logger.{LogLevel}
use ecommerce_microservice.Shared.Topology.{
  Declaration, assert_transaction_topology, transaction_queue, transaction_dead_letter_queue,
}
use ecommerce_microservice.Shared.Broker.{Subscriber, consume}
use ecommerce_microservice.Shared.Connection
use ecommerce_microservice.Shared.Connection.{
  Amqp, RabbitMqConnection, RabbitMqConnectionOptions, outside, logger_inside,
}
use ecommerce_microservice.Shared.Launch.{Launch, launch}
use ecommerce_microservice.Shared.Middleware.{Health, health_check_handler}
use ecommerce_microservice.Shared.Monitoring.{Monitor, metrics_route}
use ecommerce_microservice.Mongo.{Mongoose}

-- The two routes of the monitoring endpoint.
abbrev pub health_route : Bool → ℕ → ℕ × Health
health_route ready now = health_check_handler "transaction-worker" ready now

abbrev pub metrics : {W : Type 0} → Monitor W → Action W String
metrics m = metrics_route m transaction_dead_letter_queue

module _ {W C K : Type 0} (amqp : Amqp W C K) (options : RabbitMqConnectionOptions W)
    (wait : ℕ → W → W) (assert_all : K → List Declaration → Action W (Unit {0}))
    (subscriber : K → Subscriber W) (mongoose : Mongoose W) (uri : String) (listen : W → W) where
  -- The object is made first here; nothing before its use reads it.
  unfoldable pub bootstrap : Action (RabbitMqConnection W C K) (Unit {0})
  bootstrap = do
    outside (mongoose.connect uri)
    channel ← Connection.connect amqp options wait
    outside (assert_all channel assert_transaction_topology)
    outside (consume options.logger (subscriber channel) transaction_queue)
    outside (
        effect (
          options.logger LogLevel.info
            "transaction-worker is running and consuming transaction events"))
    outside (effect listen)

  unfoldable pub start : RabbitMqConnection W C K → Launch (Unit {0}) × RabbitMqConnection W C K
  start = launch (logger_inside options.logger) "transaction-worker" bootstrap

  -- `onShutdown`
  unfoldable pub shut_down : Action (RabbitMqConnection W C K) (Unit {0})
  shut_down = do Connection.close amqp options wait; outside mongoose.disconnect

  -- What the health route is given.
  unfoldable pub is_ready : (W → Bool) → RabbitMqConnection W C K → Bool
  is_ready is_database_connected c = is_database_connected c.world && c.connected
