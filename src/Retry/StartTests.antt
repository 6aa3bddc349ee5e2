-- ===== src/Retry/StartTests.antt =====
-- A retry worker that starts; the world counts the calls of the broker.
use ecommerce_microservice.Prelude.{ℕ, ◌+◌, String, ◌≡◌, refl, true, false, none, some, List, arith}
use ecommerce_microservice.Shared.Action.{ok, throw, Action}
use ecommerce_microservice.Shared.Dtos.{PaymentRetryRequestedEvent}
use ecommerce_microservice.Shared.Topology.{Declaration, retry_queue}
use ecommerce_microservice.Shared.Broker.{ConfirmChannel, Subscriber, consume}
use ecommerce_microservice.Shared.HttpClient.{Transport}
use ecommerce_microservice.Shared.Connection.{
  Amqp, RabbitMqConnection, RabbitMqConnectionOptions, plain_error, new_connection, connect_loop,
  connect_once, clean_up, connect,
}
use ecommerce_microservice.Shared.Connection.Connecting.{IsOpen}
use ecommerce_microservice.Retry.Clients.{Axios, Env, new_processor}
use ecommerce_microservice.Retry.Processor.{PaymentRetryProcessor}
use ecommerce_microservice.Retry.Worker.{bootstrap}
use ecommerce_microservice.Retry.Started.{bootstrap-IsOpen}

abbrev broker : Amqp ℕ ℕ ℕ
broker = record {
  connect = λ url n. (ok 5, n + 1);
  create_confirm_channel = λ link n. (ok 6, n + 1);
  close_channel = λ channel n. (ok tt, n + 1);
  close_connection = λ link n. (ok tt, n + 1);
}

abbrev options : RabbitMqConnectionOptions ℕ
options = record {
  url = "amqp://rabbitmq";
  logger = λ level message n. n;
  reconnect_delay_ms = none;
  connect_max_attempts = none;
}

abbrev at_once : ℕ → ℕ → ℕ
at_once ms n = n

abbrev declare : ℕ → List Declaration → Action ℕ (Unit {0})
declare channel declarations n = (ok tt, n + 1)

abbrev subscriber : ℕ → Subscriber ℕ
subscriber channel = record {
  prefetch = λ count n. (ok tt, n + 1);
  subscribe = λ queue n. (ok tt, n + 1);
}

abbrev publisher : ℕ → ConfirmChannel ℕ PaymentRetryRequestedEvent
publisher channel = record {
  publish = λ exchange key event c n. (none, n + 1);
  send_to_queue = λ queue event c n. (none, n + 1);
}

abbrev unanswered : {B T : Type 0} → String → Transport ℕ B T
unanswered url = record { send = λ r n. (throw (plain_error "ECONNREFUSED"), n); fire = λ m. m }

abbrev axios : Axios ℕ
axios = record { payments = unanswered; orders = unanswered }

abbrev env : Env
env = record {
  payment_service_url = "http://payment-service:3004";
  order_service_url = "http://order-service:3003";
  internal_api_key = "a shared secret";
}

abbrev running : RabbitMqConnection ℕ ℕ ℕ
running = record {
  world = 5;
  connection = some 5;
  channel = some 6;
  is_closing_intentionally = false;
  connected = true;
}

abbrev worker : PaymentRetryProcessor ℕ
worker = new_processor axios env options.logger at_once (publisher 6)

started :
    bootstrap broker options at_once declare subscriber publisher axios env
      (λ n. n)
      (new_connection 0)
    ≡ (ok worker, running)
unfolding bootstrap connect connect_loop connect_once clean_up consume
started = refl

bootstrap-IsOpen_example :
    (k : ℕ) × IsOpen k running
    × (worker ≡ new_processor axios env options.logger at_once (publisher k))
    × (w : ℕ) × (v : ℕ) × (consume options.logger (subscriber k) retry_queue w ≡ (ok tt, v))
bootstrap-IsOpen_example =
    bootstrap-IsOpen broker options at_once declare subscriber publisher axios env (λ n. n)
      (omega arith) (new_connection 0) running worker started
