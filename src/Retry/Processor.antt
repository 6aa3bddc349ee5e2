-- ===== src/Retry/Processor.antt =====
-- payment-retry-worker/src/PaymentRetryProcessor.ts.
use ecommerce_microservice.Prelude.{◌+◌, String, Bool, true, false, ltb, if◌then◌else◌}
use ecommerce_microservice.Shared.Errors.{Error, is_upstream}
use ecommerce_microservice.Shared.Action.{Action, pure, raise, effect, try_catch, ◌>>=◌, ◌>>◌}
use ecommerce_microservice.Shared.Logger.{Logger, LogLevel}
use ecommerce_microservice.Shared.Topology.{retry_delay_queue, retry_max_attempts}
use ecommerce_microservice.Shared.Dtos.{
  confirmed, failed, InitiatePaymentRequest, InitiatePaymentResponse, PaymentRetryRequestedEvent,
  UpdateOrderPaymentStatusRequest,
}

-- The constructor's arguments, by the calls that are made on them.
pub record PaymentRetryProcessor (W : Type 0) : Type 0 where
  pub initiate_payment : InitiatePaymentRequest → Action W InitiatePaymentResponse
  pub update_payment_status : String → UpdateOrderPaymentStatusRequest → Action W (Unit {0})
  pub send_to_queue : String → PaymentRetryRequestedEvent → Action W Bool
  pub logger : Logger W

abbrev pub request_of : PaymentRetryRequestedEvent → InitiatePaymentRequest
request_of event = record {
  customer_id = event.customer_id;
  order_id = event.order_id;
  product_id = event.product_id;
  amount = event.amount;
}

abbrev pub mark_confirmed : UpdateOrderPaymentStatusRequest
mark_confirmed = record { payment_initiated = true; order_status = confirmed }

abbrev pub mark_failed : UpdateOrderPaymentStatusRequest
mark_failed = record { payment_initiated = false; order_status = failed }

abbrev pub next_event : PaymentRetryRequestedEvent → PaymentRetryRequestedEvent
next_event event = record event { attempts = event.attempts + 1 }

abbrev pub attempts_remaining : PaymentRetryRequestedEvent → Bool
attempts_remaining event = ltb event.attempts retry_max_attempts

abbrev pub succeeded_message : String
succeeded_message = "Payment retry succeeded"

abbrev pub again_message : String
again_message = "Payment retry attempt failed - scheduling another attempt after delay"

abbrev pub exhausted_message : String
exhausted_message =
    "Payment retry attempts exhausted - marking payment_pending order as permanently failed"

abbrev pub stuck_message : String
stuck_message =
    "Failed to mark order as failed after exhausting retries - order will be stuck as pending until manually reconciled"

module _ {W : Type 0} (p : PaymentRetryProcessor W) where
  abbrev pub log : LogLevel → String → Action W (Unit {0})
  log level message = effect (p.logger level message)

  -- The body of the `try`.
  unfoldable pub attempt_payment : PaymentRetryRequestedEvent → Action W (Unit {0})
  attempt_payment event = do
    _ ← p.initiate_payment (request_of event)
    p.update_payment_status event.order_id mark_confirmed
    log LogLevel.info succeeded_message

  unfoldable pub schedule_again : PaymentRetryRequestedEvent → Action W (Unit {0})
  schedule_again event = do
    log LogLevel.warn again_message
    _ ← p.send_to_queue retry_delay_queue (next_event event)
    pure tt

  unfoldable pub give_up : PaymentRetryRequestedEvent → Error → Action W (Unit {0})
  give_up event err = do
    log LogLevel.error exhausted_message
    try_catch (p.update_payment_status event.order_id mark_failed)
        λ _. log LogLevel.error stuck_message
    raise err

  abbrev pub on_failure : PaymentRetryRequestedEvent → Error → Action W (Unit {0})
  on_failure event err =
      if is_upstream err
      then if attempts_remaining event then schedule_again event else give_up event err
      else raise err

  unfoldable pub handle : PaymentRetryRequestedEvent → Action W (Unit {0})
  handle event = try_catch (attempt_payment event) (on_failure event)
