-- ===== src/Retry/Worker.antt =====
-- payment-retry-worker/src/worker.ts and monitoring.ts: what the process sets up, and what it takes
-- down.
use ecommerce_microservice.Prelude.{ℕ, String, Bool, List}
use ecommerce_microservice.Shared.Action.{Action, pure, effect, ◌>>=◌, ◌>>◌}
use ecommerce_microservice.Shared.Logger.{LogLevel}
use ecommerce_microservice.Shared.Dtos.{PaymentRetryRequestedEvent}
use ecommerce_microservice.Shared.Topology.{
  Declaration, assert_payment_retry_topology, retry_queue, retry_dead_letter_queue,
}
use ecommerce_microservice.Shared.Broker.{ConfirmChannel, Subscriber, consume}
use ecommerce_microservice.Shared.Connection
use ecommerce_microservice.Shared.Connection.{
  Amqp, RabbitMqConnection, RabbitMqConnectionOptions, outside, logger_inside,
}
use ecommerce_microservice.Shared.Launch.{Launch, launch}
use ecommerce_microservice.Shared.Middleware.{Health, health_check_handler}
use ecommerce_microservice.Shared.Monitoring.{Monitor, metrics_route}
use ecommerce_microservice.Retry.Clients.{Axios, Env, new_processor}
use ecommerce_microservice.Retry.Processor.{PaymentRetryProcessor}

-- The two routes of the monitoring endpoint.
abbrev pub health_route : Bool → ℕ → ℕ × Health
health_route ready now = health_check_handler "payment-retry-worker" ready now

abbrev pub metrics : {W : Type 0} → Monitor W → Action W String
metrics m = metrics_route m retry_dead_letter_queue

abbrev pub started_message : String
started_message = "payment-retry-worker is running and consuming payment retry events"

module _ {W C K : Type 0} (amqp : Amqp W C K) (options : RabbitMqConnectionOptions W)
    (wait : ℕ → W → W) (assert_all : K → List Declaration → Action W (Unit {0}))
    (subscriber : K → Subscriber W) (publisher : K → ConfirmChannel W PaymentRetryRequestedEvent)
    (axios : Axios W) (env : Env) (listen : W → W) where
  -- The answer is the processor whose `handle` is subscribed.
  unfoldable pub bootstrap : Action (RabbitMqConnection W C K) (PaymentRetryProcessor W)
  bootstrap = do
    channel ← Connection.connect amqp options wait
    outside (assert_all channel assert_payment_retry_topology)
    outside (consume options.logger (subscriber channel) retry_queue)
    outside (
        effect (
          options.logger LogLevel.info
            "payment-retry-worker is running and consuming payment retry events"))
    outside (effect listen)
    pure (new_processor axios env options.logger wait (publisher channel))

  unfoldable pub start :
      RabbitMqConnection W C K → Launch (PaymentRetryProcessor W) × RabbitMqConnection W C K
  start = launch (logger_inside options.logger) "payment-retry-worker" bootstrap

  -- `onShutdown`
  unfoldable pub shut_down : Action (RabbitMqConnection W C K) (Unit {0})
  shut_down = Connection.close amqp options wait
