-- ===== src/Shared/Broker.antt =====
-- shared/src/rabbitmq/Publisher.ts and Consumer.ts, over a channel of amqplib, which is not part of
-- the repository: what its calls do is a parameter.
pub mod Laws
use ecommerce_microservice.Prelude.{ℕ, String, Bool, true, Option, none, some, ◌≡◌, ◌⊎◌}
use ecommerce_microservice.Shared.Errors.{Error}
use ecommerce_microservice.Shared.Action.{
  Outcome, ok, throw, Action, pure, raise, effect, try_catch, ◌>>=◌, ◌>>◌,
}
use ecommerce_microservice.Shared.Logger.{Logger, LogLevel}

-- A confirm channel at one type of payloads: each call's confirmation is an error or nothing.
pub record ConfirmChannel (W P : Type 0) : Type 0 where
  pub publish : String → String → P → Option String → W → Option Error × W
  pub send_to_queue : String → P → Option String → W → Option Error × W

module _ {W P : Type 0} (channel : ConfirmChannel W P) (logger : Logger W) where
  abbrev pub confirmed_publish : Option Error × W → Outcome Bool × W
  confirmed_publish (none, w) =
      (ok true, logger LogLevel.info "Message published and confirmed by broker" w)
  confirmed_publish (some e, w) =
      (throw e, logger LogLevel.error "Broker did not confirm message - publish failed" w)

  unfoldable pub publish : String → String → P → Option String → Action W Bool
  publish exchange routing_key payload correlation_id w =
      confirmed_publish (channel.publish exchange routing_key payload correlation_id w)

  abbrev pub confirmed_send : Option Error × W → Outcome Bool × W
  confirmed_send (none, w) = (ok true, w)
  confirmed_send (some e, w) =
      (throw e, logger LogLevel.error "Broker did not confirm message - send failed" w)

  unfoldable pub send_to_queue : String → P → Option String → Action W Bool
  send_to_queue queue payload correlation_id w =
      confirmed_send (channel.send_to_queue queue payload correlation_id w)

-- The consumer's side of a channel, at one message: `nack` is called with no requeueing.
pub record Delivery (W : Type 0) : Type 0 where
  pub ack : Action W (Unit {0})
  pub nack : Action W (Unit {0})

abbrev pub dlq_message : String
dlq_message = "Message processing failed - routing to DLQ"

abbrev pub rejected : {W : Type 0} → Logger W → Delivery W → Error → Action W (Unit {0})
rejected logger d e = effect (logger LogLevel.error dlq_message) >> d.nack

module _ {W P : Type 0} (logger : Logger W) where
  -- `parsed` is the message after `JSON.parse`.
  unfoldable pub handle_message :
      Delivery W → Outcome P → (P → Action W (Unit {0})) → Action W (Unit {0})
  handle_message d parsed handler =
      try_catch ((λ w. (parsed, w)) >>= λ payload. handler payload >> d.ack) (rejected logger d)

-- The calls that subscribe, at one queue's messages.
pub record Subscriber (W : Type 0) : Type 0 where
  pub prefetch : ℕ → Action W (Unit {0})
  pub subscribe : String → Action W (Unit {0})

module _ {W : Type 0} (logger : Logger W) where
  unfoldable pub consume : Subscriber W → String → Action W (Unit {0})
  consume channel queue = do
    channel.prefetch 1
    channel.subscribe queue
    effect (logger LogLevel.info "Consumer subscribed")

module _ {W P : Type 0} (logger : Logger W) where
  -- The callback; a null message says that the broker ended the subscription.
  unfoldable pub on_message :
      Option (Delivery W × Outcome P) → (P → Action W (Unit {0})) → Action W (Unit {0})
  on_message none handler = pure tt
  on_message (some (d, parsed)) handler = handle_message logger d parsed handler
