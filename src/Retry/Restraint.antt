-- ===== src/Retry/Restraint.antt =====
-- What one delivery of a retry event may ask for, and nothing else.
use ecommerce_microservice.Prelude.{
  ◌+◌, ◌≤◌, String, ◌≡◌, refl, inl, inr, true, false, Bool, Bool-cases, arith,
}
use ecommerce_microservice.Shared.Errors.{Error, is_upstream}
use ecommerce_microservice.Shared.Action.{Action, settled}
use ecommerce_microservice.Shared.Logger.{LogLevel}
use ecommerce_microservice.Shared.Dtos.{
  confirmed, failed, InitiatePaymentRequest, InitiatePaymentResponse, PaymentRetryRequestedEvent,
  UpdateOrderPaymentStatusRequest,
}
use ecommerce_microservice.Retry.Processor.{
  PaymentRetryProcessor, request_of, attempts_remaining, again_message, exhausted_message,
  attempt_payment, schedule_again, give_up, handle,
}

-- Other clients that answer alike where an event allows the worker to call them: for the payment of its
-- order, for marking that order as confirmed and paid, once three attempts were counted for marking it as
-- failed and unpaid, and before that for putting the event into the delay queue with one attempt more.
pub record Alike {W : Type 0} (p : PaymentRetryProcessor W) (event : PaymentRetryRequestedEvent)
    (pay : InitiatePaymentRequest → Action W InitiatePaymentResponse)
    (update : String → UpdateOrderPaymentStatusRequest → Action W (Unit {0}))
    (send : String → PaymentRetryRequestedEvent → Action W Bool) : Type 0 where
  pub pays :
      (w : W)
      → let request : InitiatePaymentRequest = record {
        customer_id = event.customer_id;
        order_id = event.order_id;
        product_id = event.product_id;
        amount = event.amount;
      } in
        pay request w ≡ p.initiate_payment request w
  pub confirms :
      (w : W)
      → let paid : UpdateOrderPaymentStatusRequest = record {
        payment_initiated = true;
        order_status = confirmed;
      } in
        update event.order_id paid w ≡ p.update_payment_status event.order_id paid w
  pub fails :
      3 ≤ event.attempts
      → (w : W)
      → let unpaid : UpdateOrderPaymentStatusRequest = record {
        payment_initiated = false;
        order_status = failed;
      } in
        update event.order_id unpaid w ≡ p.update_payment_status event.order_id unpaid w
  pub sends :
      event.attempts + 1 ≤ 3
      → (w : W)
      → let next : PaymentRetryRequestedEvent = record event { attempts = event.attempts + 1 } in
        send "payment-retry-delay-queue" next w ≡ p.send_to_queue "payment-retry-delay-queue" next w

module _ {W : Type 0} (p : PaymentRetryProcessor W) (event : PaymentRetryRequestedEvent)
    {pay : InitiatePaymentRequest → Action W InitiatePaymentResponse}
    {update : String → UpdateOrderPaymentStatusRequest → Action W (Unit {0})}
    {send : String → PaymentRetryRequestedEvent → Action W Bool}
    (alike : Alike p event pay update send) where
  abbrev other : PaymentRetryProcessor W
  other = record {
    initiate_payment = pay;
    update_payment_status = update;
    send_to_queue = send;
    logger = p.logger;
  }

  attempt-alike : (w : W) → attempt_payment other event w ≡ attempt_payment p event w
  unfolding attempt_payment
  attempt-alike w = elim (settled (p.initiate_payment (request_of event) w)) [
    | inr (x, u, e) ↦ rw (alike.pays w, e) refl
    | inl (r, u, e) ↦ rw (alike.pays w, e, alike.confirms u) refl
  ]

  again-alike :
      attempts_remaining event ≡ true
      → (w : W) → schedule_again other event w ≡ schedule_again p event w
  unfolding schedule_again
  again-alike left w = rw (alike.sends (ground arith) (p.logger LogLevel.warn again_message w)) refl

  give_up-alike :
      attempts_remaining event ≡ false
      → (x : Error) (w : W) → give_up other event x w ≡ give_up p event x w
  unfolding give_up
  give_up-alike spent x w =
      rw (alike.fails (ground arith) (p.logger LogLevel.error exhausted_message w)) refl

  -- A delivery runs to the same result with any other clients that answer alike where the event allows
  -- the worker to call them, and the same log: so it asks for no other payment than that of the event,
  -- for no other status of an order than its own as confirmed and paid, or as failed and unpaid once three
  -- attempts were counted, and it sends nothing but the event with one attempt more, before that.
  pub handle-restrained : (w : W) → handle other event w ≡ handle p event w
  unfolding handle
  handle-restrained w =
      let same = attempt-alike w in
      elim (settled (attempt_payment p event w)) [
        | inl (done, u, e) ↦ rw (same, e) refl
        | inr (x, u, e) ↦ elim (Bool-cases (is_upstream x)) [
          | inr unexpected ↦ rw (same, e, unexpected) refl
          | inl upstream ↦ elim (Bool-cases (attempts_remaining event)) [
            | inl left ↦ rw (same, e, upstream, left) (again-alike left u)
            | inr spent ↦ rw (same, e, upstream, spent) (give_up-alike spent x u)
          ]
        ]
      ]
