-- ===== src/Shared/Topology.antt =====
-- shared/src/rabbitmq/topology.ts: the names of the exchanges and queues, and the declarations that
-- the services send to the broker when they start.
use ecommerce_microservice.Prelude.{ℕ, String, Option, none, some, List, [], ◌∷◌}

abbrev pub transaction_exchange : String
transaction_exchange = "payment.events"

abbrev pub transaction_routing_key : String
transaction_routing_key = "transaction.created"

abbrev pub transaction_queue : String
transaction_queue = "transaction-history-queue"

abbrev pub transaction_dead_letter_exchange : String
transaction_dead_letter_exchange = "payment.events.dlx"

abbrev pub transaction_dead_letter_queue : String
transaction_dead_letter_queue = "transaction-history-dlq"

abbrev pub transaction_dead_letter_routing_key : String
transaction_dead_letter_routing_key = "transaction.created.dead"

abbrev pub retry_exchange : String
retry_exchange = "payment.retry"

abbrev pub retry_routing_key : String
retry_routing_key = "payment.retry.requested"

abbrev pub retry_queue : String
retry_queue = "payment-retry-queue"

abbrev pub retry_delay_queue : String
retry_delay_queue = "payment-retry-delay-queue"

abbrev pub retry_delay_ms : ℕ
retry_delay_ms = 5000

abbrev pub retry_dead_letter_exchange : String
retry_dead_letter_exchange = "payment.retry.dlx"

abbrev pub retry_dead_letter_queue : String
retry_dead_letter_queue = "payment-retry-dlq"

abbrev pub retry_dead_letter_routing_key : String
retry_dead_letter_routing_key = "payment.retry.dead"

abbrev pub retry_max_attempts : ℕ
retry_max_attempts = 3

-- The options of `assertQueue`; all queues and exchanges are durable.
pub record QueueOptions : Type 0 where
  pub message_ttl : Option ℕ
  pub dead_letter_exchange : Option String
  pub dead_letter_routing_key : Option String

abbrev pub plain : QueueOptions
plain = record { message_ttl = none; dead_letter_exchange = none; dead_letter_routing_key = none }

-- A call on the channel; every exchange is a direct one.
pub data Declaration : Type 0 where
  assert_exchange : String → Declaration
  assert_queue : String → QueueOptions → Declaration
  bind_queue : (queue exchange routing_key : String) → Declaration

unfoldable pub assert_transaction_topology : List Declaration
assert_transaction_topology =
    assert_exchange transaction_dead_letter_exchange
    ∷ assert_queue transaction_dead_letter_queue plain
    ∷ bind_queue transaction_dead_letter_queue transaction_dead_letter_exchange
        transaction_dead_letter_routing_key
    ∷ assert_exchange transaction_exchange
    ∷ assert_queue transaction_queue (record {
      message_ttl = none;
      dead_letter_exchange = some transaction_dead_letter_exchange;
      dead_letter_routing_key = some transaction_dead_letter_routing_key;
    })
    ∷ bind_queue transaction_queue transaction_exchange transaction_routing_key
    ∷ []

unfoldable pub assert_payment_retry_topology : List Declaration
assert_payment_retry_topology =
    assert_exchange retry_dead_letter_exchange
    ∷ assert_queue retry_dead_letter_queue plain
    ∷ bind_queue retry_dead_letter_queue retry_dead_letter_exchange retry_dead_letter_routing_key
    ∷ assert_exchange retry_exchange
    ∷ assert_queue retry_queue plain
    ∷ bind_queue retry_queue retry_exchange retry_routing_key
    ∷ assert_queue retry_delay_queue (record {
      message_ttl = some retry_delay_ms;
      dead_letter_exchange = some retry_exchange;
      dead_letter_routing_key = some retry_routing_key;
    })
    ∷ []
