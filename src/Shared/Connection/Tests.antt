-- ===== src/Shared/Connection/Tests.antt =====
-- A broker that refuses twice and then answers, and a connection that is lost while closing.
use ecommerce_microservice.Prelude.{
  ℕ, ◌+◌, String, ◌≡◌, refl, true, false, none, some, ltb, if◌then◌else◌, arith,
}
use ecommerce_microservice.Shared.Action.{ok, throw}
use ecommerce_microservice.Shared.Logger.{Logger}
use ecommerce_microservice.Shared.Connection.{
  Amqp, RabbitMqConnection, RabbitMqConnectionOptions, plain_error, new_connection, connect_once,
  clean_up, connect, close, on_close, reconnect,
}
use ecommerce_microservice.Shared.Connection.Connecting.{Ends, IsOpen, connect-Ends}
use ecommerce_microservice.Shared.Connection.Attempts.{Attempted, start, again, connect-reaches}
use ecommerce_microservice.Shared.Connection.Lifecycle.{lost_and_closed, close-reopened}

-- The world counts the calls of `amqp.connect`; the first two are refused.
abbrev broker : Amqp ℕ ℕ String
broker = record {
  connect = λ url n. if ltb n 2 then (throw (plain_error "ECONNREFUSED"), n + 1) else (ok n, n + 1);
  create_confirm_channel = λ link n. (ok "confirm channel", n);
  close_channel = λ channel n. (ok tt, n);
  close_connection = λ link n. (ok tt, n);
}

abbrev silent : Logger ℕ
silent level message n = n

abbrev options : RabbitMqConnectionOptions ℕ
options = record {
  url = "amqp://rabbitmq";
  logger = silent;
  reconnect_delay_ms = none;
  connect_max_attempts = some 4;
}

abbrev at_once : ℕ → ℕ → ℕ
at_once ms n = n

abbrev fresh : ℕ → RabbitMqConnection ℕ ℕ String
fresh n = new_connection n

-- The third attempt gets through.
abbrev opened : RabbitMqConnection ℕ ℕ String
opened = record {
  world = 3;
  connection = some 2;
  channel = some "confirm channel";
  is_closing_intentionally = false;
  connected = true;
}

refused_twice : Attempted broker options at_once (fresh 0) 2 (fresh 2)
unfolding connect_once clean_up
refused_twice =
    again {f = fresh 2} (plain_error "ECONNREFUSED")
      (again {f = fresh 1} (plain_error "ECONNREFUSED") start refl refl) refl refl

connect-Ends_example :
    let (r, d) = connect broker options at_once (fresh 0) in
    Ends r d × (d.is_closing_intentionally ≡ false)
connect-Ends_example = connect-Ends broker options at_once (fresh 0) (omega arith)

answers : connect_once broker options at_once (fresh 2) ≡ (ok "confirm channel", opened)
unfolding connect_once
answers = refl

connect-reaches_example : connect broker options at_once (fresh 0) ≡ (ok "confirm channel", opened)
connect-reaches_example =
    connect-reaches broker options at_once 2 "confirm channel" refl refused_twice (omega arith)
      answers

abbrev closed : RabbitMqConnection ℕ ℕ String
closed = lost_and_closed broker options at_once opened

answers_closed : connect_once broker options at_once closed ≡ (
  ok "confirm channel",
  record {
    world = 4;
    connection = some 3;
    channel = some "confirm channel";
    is_closing_intentionally = true;
    connected = true;
  },
)
unfolding connect_once close on_close
answers_closed = refl

close-reopened_example :
    ((on_close broker options at_once opened).0 ≡ true)
    × IsOpen "confirm channel" (reconnect broker options at_once closed)
    × ((reconnect broker options at_once closed).is_closing_intentionally ≡ true)
close-reopened_example =
    close-reopened broker options at_once (omega arith) opened
      (record {
        world = 4;
        connection = some 3;
        channel = some "confirm channel";
        is_closing_intentionally = true;
        connected = true;
      })
      "confirm channel" refl answers_closed
