-- ===== src/Retry/Outcomes.antt =====
-- What one delivery of a retry event does, by how the payment and the order update went.
use ecommerce_microservice.Prelude.{◌≡◌, true, false, Bool, inl, inr}
use ecommerce_microservice.Shared.Errors.{Error, is_upstream}
use ecommerce_microservice.Shared.Action.{Outcome, ok, throw, settled}
use ecommerce_microservice.Shared.Logger.{LogLevel}
use ecommerce_microservice.Shared.Topology.{retry_delay_queue}
use ecommerce_microservice.Shared.Dtos.{InitiatePaymentResponse, PaymentRetryRequestedEvent}
use ecommerce_microservice.Retry.Processor.{
  PaymentRetryProcessor, request_of, mark_confirmed, mark_failed, next_event, attempts_remaining,
  again_message, exhausted_message, stuck_message, attempt_payment, schedule_again, give_up, handle,
}

-- The log line on an update that failed.
abbrev pub logged_if_stuck : {W : Type 0} → PaymentRetryProcessor W → Outcome (Unit {0}) → W → W
logged_if_stuck p (ok _) w = w
logged_if_stuck p (throw _) w = p.logger LogLevel.error stuck_message w

module _ {W : Type 0} (p : PaymentRetryProcessor W) (event : PaymentRetryRequestedEvent)
    (w : W) where
  -- An attempt that fails for an upstream reason, with attempts left and a broker that confirms: the
  -- handler returns, so that the message is acknowledged, and the world is the one in which the same
  -- event with one attempt more was put into the delay queue. The order is left alone.
  pub handle-again :
      (err : Error) (b : Bool) (u v : W)
      → attempt_payment p event w ≡ (throw err, u)
      → is_upstream err ≡ true
      → attempts_remaining event ≡ true
      → p.send_to_queue retry_delay_queue
          (next_event event)
          (p.logger LogLevel.warn again_message u)
        ≡ (ok b, v)
      → handle p event w ≡ (ok tt, v)
  unfolding handle schedule_again
  handle-again err b u v down upstream left sent = rw (down, upstream, left, sent)

  -- Any other error is thrown on in the world that it left: no attempt is counted, the order is not
  -- touched and nothing is sent.
  pub handle-unexpected :
      (err : Error) (u : W)
      → attempt_payment p event w ≡ (throw err, u)
      → is_upstream err ≡ false
      → handle p event w ≡ (throw err, u)
  unfolding handle
  handle-unexpected err u down other = rw (down, other)

  -- When the last attempt fails, the handler asks for the order to be marked failed, whether that
  -- succeeds or not, and throws the attempt's error.
  pub handle-exhausted :
      (err : Error) (u : W)
      → attempt_payment p event w ≡ (throw err, u)
      → is_upstream err ≡ true
      → attempts_remaining event ≡ false
      → let (r, v) =
          p.update_payment_status event.order_id mark_failed
            (p.logger LogLevel.error exhausted_message u) in
        handle p event w ≡ (throw err, logged_if_stuck p r v)
  unfolding handle give_up
  handle-exhausted err u down upstream spent =
      elim (settled (
        p.update_payment_status event.order_id mark_failed
          (p.logger LogLevel.error exhausted_message u))) [
            | inl (done, v, e) ↦ rw (down, upstream, spent, e)
            | inr (x, v, e) ↦ rw (down, upstream, spent, e)
          ]

  -- A payment that was accepted, on the last attempt, whose order could not be updated: the handler
  -- then asks for the order of that accepted payment to be marked failed.
  pub handle-fails_paid_order :
      (paid : InitiatePaymentResponse) (err : Error) (u v z : W)
      → p.initiate_payment (request_of event) w ≡ (ok paid, u)
      → p.update_payment_status event.order_id mark_confirmed u ≡ (throw err, v)
      → is_upstream err ≡ true
      → attempts_remaining event ≡ false
      → p.update_payment_status event.order_id mark_failed
          (p.logger LogLevel.error exhausted_message v)
        ≡ (ok tt, z)
      → handle p event w ≡ (throw err, z)
  unfolding handle give_up attempt_payment
  handle-fails_paid_order paid err u v z accepted lost upstream spent marked =
      rw (accepted, lost, upstream, spent, marked)
