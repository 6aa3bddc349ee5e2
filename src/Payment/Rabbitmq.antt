-- ===== src/Payment/Rabbitmq.antt =====
-- payment-service/src/config/rabbitmq.ts: the module's two variables and what changes them. amqplib
-- is a parameter, `assert_all` its `assertExchange`, `assertQueue` and `bindQueue` calls.
use ecommerce_microservice.Prelude.{ℕ, String, Bool, true, false, ◌&&◌, Option, none, some, List}
use ecommerce_microservice.Shared.Action.{Outcome, Action, pure, raise, effect, ◌>>=◌, ◌>>◌}
use ecommerce_microservice.Shared.Topology.{
  Declaration, assert_transaction_topology, assert_payment_retry_topology,
}
use ecommerce_microservice.Shared.Connection
use ecommerce_microservice.Shared.Connection.{
  Amqp, RabbitMqConnection, RabbitMqConnectionOptions, new_connection, outside, plain_error,
}

-- `connection` and `publisher`, of which the publisher is the channel that it keeps. While `made` is
-- false the variable is null and of the object only the world counts.
pub record Rabbitmq (W C K : Type 0) : Type 0 where
  pub object : RabbitMqConnection W C K
  pub made : Bool
  pub publisher : Option K

abbrev pub no_publisher_message : String
no_publisher_message = "RabbitMQ publisher not initialized - call connectRabbitMQ() first"

module _ {W C K : Type 0} where
  -- A method of the object.
  abbrev pub returned :
      {A : Type 0}
      → Rabbitmq W C K
      → Outcome A × RabbitMqConnection W C K
      → Outcome A × Rabbitmq W C K
  returned m (r, object) = (r, record m { object = object })

  abbrev pub on_object :
      {A : Type 0} → Action (RabbitMqConnection W C K) A → Action (Rabbitmq W C K) A
  on_object f m = returned m (f m.object)

  unfoldable pub is_rabbitmq_ready : Rabbitmq W C K → Bool
  is_rabbitmq_ready m = m.made && m.object.connected

  abbrev pub publisher_or : Option K → Action (Rabbitmq W C K) K
  publisher_or none = raise (plain_error no_publisher_message)
  publisher_or (some k) = pure k

  unfoldable pub get_publisher : Action (Rabbitmq W C K) K
  get_publisher m = publisher_or m.publisher m

module _ {W C K : Type 0} (amqp : Amqp W C K) (options : RabbitMqConnectionOptions W)
    (wait : ℕ → W → W) (assert_all : K → List Declaration → Action W (Unit {0})) where
  unfoldable pub connect_rabbitmq : Action (Rabbitmq W C K) (Unit {0})
  connect_rabbitmq = do
    effect λ m. record m { object = new_connection m.object.world; made = true }
    channel ← on_object (Connection.connect amqp options wait)
    on_object (outside (assert_all channel assert_transaction_topology))
    on_object (outside (assert_all channel assert_payment_retry_topology))
    effect λ m. record m { publisher = some channel }

  -- `connection?.close()`
  abbrev pub close_if : Bool → Action (Rabbitmq W C K) (Unit {0})
  close_if false = pure tt
  close_if true = on_object (Connection.close amqp options wait)

  unfoldable pub close_rabbitmq : Action (Rabbitmq W C K) (Unit {0})
  close_rabbitmq m = close_if m.made m
