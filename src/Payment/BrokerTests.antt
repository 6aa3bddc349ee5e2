-- ===== src/Payment/BrokerTests.antt =====
-- A broker whose connection is lost once. The world counts the connections.
use ecommerce_microservice.Prelude.{
  ℕ, ◌+◌, ◌≡◌, refl, String, Bool, true, false, Option, none, some, List, arith,
}
use ecommerce_microservice.Shared.Json.{Json, null}
use ecommerce_microservice.Shared.Action.{Outcome, ok, Action}
use ecommerce_microservice.Shared.Headers.{Headers}
use ecommerce_microservice.Shared.Metrics.{Registry}
use ecommerce_microservice.Shared.Middleware.{Validation, invalid}
use ecommerce_microservice.Shared.Broker.{ConfirmChannel}
use ecommerce_microservice.Shared.App.{HttpCall}
use ecommerce_microservice.Shared.Dtos.{InitiatePaymentRequest, TransactionCreatedEvent}
use ecommerce_microservice.Shared.Topology.{Declaration}
use ecommerce_microservice.Shared.Connection.{
  Amqp, RabbitMqConnection, RabbitMqConnectionOptions, new_connection, connect_loop, connect_once,
  clean_up, connect, on_close,
}
use ecommerce_microservice.Payment.Rabbitmq.{
  Rabbitmq, is_rabbitmq_ready, get_publisher, connect_rabbitmq,
}
use ecommerce_microservice.Payment.Server.{start}
use ecommerce_microservice.Payment.Started.{Ready, start-Ready}
use ecommerce_microservice.Payment.Stale.{reconnected, publisher-stale}

-- The channels are numbered like the connections.
abbrev broker : Amqp ℕ ℕ ℕ
broker = record {
  connect = λ url n. (ok n, n + 1);
  create_confirm_channel = λ link n. (ok link, n);
  close_channel = λ channel n. (ok tt, n);
  close_connection = λ link n. (ok tt, n);
}

abbrev options : RabbitMqConnectionOptions ℕ
options = record {
  url = "amqp://rabbitmq";
  logger = λ level message n. n;
  reconnect_delay_ms = none;
  connect_max_attempts = none;
}

abbrev at_once : ℕ → ℕ → ℕ
at_once ms n = n

abbrev declare : ℕ → List Declaration → Action ℕ (Unit {0})
declare channel declarations n = (ok tt, n)

abbrev unset : Rabbitmq ℕ ℕ ℕ
unset = record { object = new_connection 0; made = false; publisher = none }

abbrev linked : ℕ → RabbitMqConnection ℕ ℕ ℕ
linked n = record {
  world = n + 1;
  connection = some n;
  channel = some n;
  is_closing_intentionally = false;
  connected = true;
}

abbrev set_up : Rabbitmq ℕ ℕ ℕ
set_up = record { object = linked 0; made = true; publisher = some 0 }

starts : connect_rabbitmq broker options at_once declare unset ≡ (ok tt, set_up)
unfolding connect_rabbitmq connect connect_loop connect_once clean_up
starts = refl

answers :
    connect_once broker options at_once (on_close broker options at_once (linked 0)).1
    ≡ (ok 1, linked 1)
unfolding connect_once on_close
answers = refl

publisher-stale_example :
    (old : ℕ) × (some 0 ≡ some old)
    × ((on_close broker options at_once (linked 0)).0 ≡ true)
    × (is_rabbitmq_ready (reconnected broker options at_once set_up) ≡ true)
    × ((reconnected broker options at_once set_up).object.channel ≡ some 1)
    × (get_publisher (reconnected broker options at_once set_up)
        ≡ (ok old, reconnected broker options at_once set_up))
publisher-stale_example =
    publisher-stale broker options at_once declare (omega arith) unset set_up (linked 1) 1 starts
      answers

-- The rest of a payment service over this broker, and its start.
abbrev on_channel : ℕ → ConfirmChannel ℕ TransactionCreatedEvent
on_channel k = record {
  publish = λ exchange key event c n. (none, n);
  send_to_queue = λ queue event c n. (none, n);
}

abbrev mint : ℕ → String × ℕ
mint n = ("payment-0", n)

abbrev clock : ℕ → ℕ × ℕ
clock n = (7, n)

abbrev no_schema : Json → Validation InitiatePaymentRequest
no_schema body = invalid null

abbrev registry : Registry ℕ
registry = record { inc = λ l n. n; metrics = λ n. (ok "", n) }

abbrev ready : ℕ → Bool
ready n = true

abbrev nowhere : String → String → HttpCall → Option Json
nowhere method pattern r = none

abbrev same_headers : Headers → Headers
same_headers hs = hs

abbrev json : String → Outcome Json
json text = ok null

abbrev listen : ℕ → ℕ
listen n = n

start-Ready_example :
    let (launched, v) =
      start broker options at_once declare on_channel mint clock no_schema "a shared secret"
        registry ready nowhere same_headers json listen unset in
    Ready broker options at_once declare on_channel mint clock no_schema "a shared secret" registry
      ready nowhere same_headers json listen launched v
start-Ready_example =
    start-Ready broker options at_once declare on_channel mint clock no_schema "a shared secret"
      registry ready nowhere same_headers json listen (omega arith) unset
