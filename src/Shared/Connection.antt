-- ===== src/Shared/Connection.antt =====
-- shared/src/rabbitmq/RabbitMQConnection.ts. amqplib is a parameter: `C` are its connections and `K`
-- its confirm channels. The fields of the object stand beside the outside world.
pub mod Attempts
pub mod Connecting
pub mod Lifecycle
mod Tests
use ecommerce_microservice.Prelude.{
  ℕ, zero, suc, ◌+◌, String, Bool, true, false, not, ◌||◌, Option, none, some, ◌==◌, if◌then◌else◌,
}
use ecommerce_microservice.Shared.Errors.{Error, foreign}
use ecommerce_microservice.Shared.Action.{
  Outcome, ok, throw, Action, pure, raise, effect, try_catch, ◌>>=◌, ◌>>◌,
}
use ecommerce_microservice.Shared.Logger.{Logger, LogLevel}

-- `amqp.connect(url)`, `connection.createConfirmChannel()` and the two `close()` calls.
pub record Amqp (W C K : Type 0) : Type 0 where
  pub connect : String → Action W C
  pub create_confirm_channel : C → Action W K
  pub close_channel : K → Action W (Unit {0})
  pub close_connection : C → Action W (Unit {0})

pub record RabbitMqConnectionOptions (W : Type 0) : Type 0 where
  pub url : String
  pub logger : Logger W
  pub reconnect_delay_ms : Option ℕ
  pub connect_max_attempts : Option ℕ

-- The fields that the methods change; the world is what the object is used in.
pub record RabbitMqConnection (W C K : Type 0) : Type 0 where
  pub world : W
  pub connection : Option C
  pub channel : Option K
  pub is_closing_intentionally : Bool
  pub connected : Bool

abbrev pub value_or : Option ℕ → ℕ → ℕ
value_or none n = n
value_or (some m) n = m

-- `isConnected`
abbrev pub is_connected : {W C K : Type 0} → RabbitMqConnection W C K → Bool
is_connected c = c.connected

abbrev pub plain_error : String → Error
plain_error message = foreign (record { message = message; code = none; response = none })

-- `logger` where the object is part of the world.
abbrev pub logger_inside : {W C K : Type 0} → Logger W → Logger (RabbitMqConnection W C K)
logger_inside logger level message c = record c { world = logger level message c.world }

abbrev pub no_channel_message : String
no_channel_message = "RabbitMQ channel not initialized - call connect() first"

abbrev pub retrying_message : String
retrying_message = "RabbitMQ connection attempt failed, retrying..."

module _ {W C K : Type 0} where
  -- The fields as the class initialises them.
  abbrev pub new_connection : W → RabbitMqConnection W C K
  new_connection w = record {
    world = w;
    connection = none;
    channel = none;
    is_closing_intentionally = false;
    connected = false;
  }

  abbrev pub channel_or : Option K → Action (RabbitMqConnection W C K) K
  channel_or none = raise (plain_error no_channel_message)
  channel_or (some k) = pure k

  unfoldable pub get_channel : Action (RabbitMqConnection W C K) K
  get_channel c = channel_or c.channel c

  abbrev pub back :
      {A : Type 0} → RabbitMqConnection W C K → Outcome A × W → Outcome A × RabbitMqConnection W C K
  back c (r, w) = (r, record c { world = w })

  -- A call on the world, from the object.
  abbrev pub outside : {A : Type 0} → Action W A → Action (RabbitMqConnection W C K) A
  outside m c = back c (m c.world)

  abbrev pub set_closing : Bool → Action (RabbitMqConnection W C K) (Unit {0})
  set_closing b = effect λ c. record c { is_closing_intentionally = b }

  abbrev pub set_connected : Bool → Action (RabbitMqConnection W C K) (Unit {0})
  set_connected b = effect λ c. record c { connected = b }

  -- `.catch(() => undefined)`
  abbrev pub ignoring :
      Action (RabbitMqConnection W C K) (Unit {0}) → Action (RabbitMqConnection W C K) (Unit {0})
  ignoring m = try_catch m λ _. pure tt

module _ {W C K : Type 0} (amqp : Amqp W C K) (options : RabbitMqConnectionOptions W)
    (wait : ℕ → W → W) where
  abbrev pub reconnect_delay : ℕ
  reconnect_delay = value_or options.reconnect_delay_ms 3000

  abbrev pub max_attempts : ℕ
  max_attempts = value_or options.connect_max_attempts 10

  abbrev pub log : LogLevel → String → Action (RabbitMqConnection W C K) (Unit {0})
  log level message = effect λ c. record c { world = options.logger level message c.world }

  -- `this.channel?.close()` and `this.connection?.close()`
  abbrev pub close_channel? : Option K → Action (RabbitMqConnection W C K) (Unit {0})
  close_channel? none = pure tt
  close_channel? (some k) = outside (amqp.close_channel k)

  abbrev pub close_connection? : Option C → Action (RabbitMqConnection W C K) (Unit {0})
  close_connection? none = pure tt
  close_connection? (some k) = outside (amqp.close_connection k)

  unfoldable pub connect_once : Action (RabbitMqConnection W C K) K
  connect_once = do
    connection ← outside (amqp.connect options.url)
    effect λ c. record c { connection = some connection }
    channel ← outside (amqp.create_confirm_channel connection)
    effect λ c. record c { channel = some channel }
    set_connected true
    log LogLevel.info "Connected to RabbitMQ"
    pure channel

  unfoldable pub close_partial_connection : Action (RabbitMqConnection W C K) (Unit {0})
  close_partial_connection c =
      (do
        set_closing true
        λ d. ignoring (close_channel? d.channel) d
        λ d. ignoring (close_connection? d.connection) d
        set_closing c.is_closing_intentionally
        effect λ d. record d { channel = none; connection = none })
        c

  -- The `catch` of the loop up to its test.
  unfoldable pub clean_up : Action (RabbitMqConnection W C K) (Unit {0})
  unfolding close_partial_connection
  clean_up = do set_connected false; close_partial_connection

  -- The log line and the pause between two attempts.
  abbrev pub pause : RabbitMqConnection W C K → RabbitMqConnection W C K
  pause c = record c {
    world = wait reconnect_delay (options.logger LogLevel.warn retrying_message c.world);
  }

  -- The `for` loop, by the rounds that are left.
  unfoldable pub connect_loop : ℕ → ℕ → Action (RabbitMqConnection W C K) K
  connect_loop zero attempt = raise (plain_error "RabbitMQ connection failed")
  connect_loop (suc rounds) attempt = try_catch connect_once λ err. do
    clean_up
    λ c.
        (if attempt == max_attempts || c.is_closing_intentionally
            then raise err
            else (effect pause >> connect_loop rounds (attempt + 1)))
          c

  unfoldable pub connect : Action (RabbitMqConnection W C K) K
  connect = connect_loop max_attempts 1

  unfoldable pub close : Action (RabbitMqConnection W C K) (Unit {0})
  close = do
    set_closing true
    λ c. close_channel? c.channel c
    λ c. close_connection? c.connection c

  -- The handler of the connection's 'error' event.
  unfoldable pub on_error : RabbitMqConnection W C K → RabbitMqConnection W C K
  on_error c = record c {
    connected = false;
    world = options.logger LogLevel.error "RabbitMQ connection error" c.world;
  }

  -- The handler of its 'close' event; true if it sets the timer that reconnects.
  unfoldable pub on_close : RabbitMqConnection W C K → Bool × RabbitMqConnection W C K
  on_close c = if c.is_closing_intentionally then (false, record c { connected = false }) else (
    true,
    record c {
      connected = false;
      world =
          options.logger LogLevel.warn "RabbitMQ connection closed unexpectedly, reconnecting..."
            c.world;
    },
  )

  -- What the timer runs: `this.connect().catch(…)`.
  abbrev pub logged_failure : Outcome K × RabbitMqConnection W C K → RabbitMqConnection W C K
  logged_failure (ok k, c) = c
  logged_failure (throw e, c) = record c {
    world = options.logger LogLevel.error "Reconnect failed" c.world;
  }

  unfoldable pub reconnect : RabbitMqConnection W C K → RabbitMqConnection W C K
  reconnect c = logged_failure (connect c)
