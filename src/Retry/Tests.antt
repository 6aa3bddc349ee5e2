-- ===== src/Retry/Tests.antt =====
-- The retry worker at work: the world counts the calls of the payment service.
use ecommerce_microservice.Prelude.{
  String, str_eq, Bool, ◌*◌, ℕ, ◌+◌, ◌≤◌, ◌≡◌, refl, true, none, if◌then◌else◌, arith,
}
use ecommerce_microservice.Shared.Errors.{Error, UpstreamServiceError, foreign}
use ecommerce_microservice.Shared.Action.{Outcome, ok, throw}
use ecommerce_microservice.Shared.Dtos.{
  InitiatePaymentRequest, InitiatePaymentResponse, PaymentRetryRequestedEvent,
  UpdateOrderPaymentStatusRequest,
}
use ecommerce_microservice.Shared.Broker.{Delivery}
use ecommerce_microservice.Retry.Processor.{PaymentRetryProcessor, attempt_payment, handle}
use ecommerce_microservice.Retry.Outcomes.{handle-exhausted, handle-fails_paid_order}
use ecommerce_microservice.Retry.Restraint.{Alike, handle-restrained}
use ecommerce_microservice.Retry.Cycle.{retry_cycle, retry_cycle-three}
use ecommerce_microservice.Retry.Charges.{retry_cycle-pays}

abbrev down_error : Error
down_error = UpstreamServiceError "payment-service" "timeout" none

abbrev other_error : Error
other_error = foreign (record { message = "Cannot read properties"; code = none; response = none })

abbrev processor : Outcome InitiatePaymentResponse → PaymentRetryProcessor ℕ
processor answer = record {
  initiate_payment = λ r n. (answer, n + 1);
  update_payment_status = λ id u n. (ok tt, n);
  send_to_queue = λ q e n. (ok true, n);
  logger = λ l m n. n;
}

abbrev accepted : Outcome InitiatePaymentResponse
accepted = ok (record { payment_id = "payment-0"; order_id = "order-0" })

-- Payments are taken, but the order service is down.
abbrev stranded : PaymentRetryProcessor ℕ
stranded = record (processor accepted) {
  update_payment_status = λ id u n. (if u.payment_initiated then throw down_error else ok tt, n);
}

abbrev event : ℕ → PaymentRetryRequestedEvent
event attempts = record {
  order_id = "order-0";
  customer_id = "cust-1";
  product_id = "001";
  amount = 19990;
  requested_at = 7;
  attempts = attempts;
}

abbrev delivery : Delivery ℕ
delivery = record { ack = λ n. (ok tt, n); nack = λ n. (ok tt, n) }

failed_attempt :
    (n : ℕ) (e : Error) → attempt_payment (processor (throw e)) (event n) 0 ≡ (throw e, 1)
unfolding attempt_payment
failed_attempt n e = refl

last_attempt_fails : handle (processor (throw down_error)) (event 3) 0 ≡ (throw down_error, 1)
last_attempt_fails =
    handle-exhausted (processor (throw down_error)) (event 3) 0 down_error 1
      (failed_attempt 3 down_error) refl refl

paid_order_marked_failed : handle stranded (event 3) 0 ≡ (throw down_error, 1)
paid_order_marked_failed =
    handle-fails_paid_order stranded (event 3) 0
      (record { payment_id = "payment-0"; order_id = "order-0" }) down_error 1 1 1 refl refl refl
      refl refl

-- Clients that take nothing but calls for one order, and a queue that takes nothing.
abbrev narrow_payments : InitiatePaymentRequest → ℕ → Outcome InitiatePaymentResponse × ℕ
narrow_payments r n =
    if str_eq r.order_id "order-0" then stranded.initiate_payment r n else (throw other_error, n)

abbrev narrow_updates : String → UpdateOrderPaymentStatusRequest → ℕ → Outcome (Unit {0}) × ℕ
narrow_updates id u n =
    if str_eq id "order-0" then stranded.update_payment_status id u n else (throw other_error, n)

abbrev no_queue : String → PaymentRetryRequestedEvent → ℕ → Outcome Bool × ℕ
no_queue q e n = (throw other_error, n)

narrow_lem : Alike stranded (event 3) narrow_payments narrow_updates no_queue
narrow_lem = record {
  pays = λ w. refl;
  confirms = λ w. refl;
  fails = λ h w. refl;
  sends = λ h w. absurd (omega (arith, h));
}

handle-restrained_example :
    handle
      (record {
        initiate_payment = narrow_payments;
        update_payment_status = narrow_updates;
        send_to_queue = no_queue;
        logger = stranded.logger;
      })
      (event 3)
      0
    ≡ handle stranded (event 3) 0
handle-restrained_example = handle-restrained stranded (event 3) narrow_lem 0

retry_cycle-three_example :
    retry_cycle (processor (throw down_error)) delivery (λ n w. w) (4 + 3) (event 1)
    ≡ retry_cycle (processor (throw down_error)) delivery (λ n w. w) 3 (event 1)
retry_cycle-three_example =
    retry_cycle-three (processor (throw down_error)) delivery (λ n w. w) 4 (event 1) (omega arith)

retry_cycle-pays_example :
    (retry_cycle (processor (throw down_error)) delivery (λ n w. w) (4 + 3) (event 1) 0).1
    ≤ 0 + 3 * 4
retry_cycle-pays_example =
    retry_cycle-pays (processor (throw down_error)) delivery (λ n w. w) (λ n. n) 4
      (λ r w. omega arith) (λ id u w. refl) (λ l m w. refl) (λ n w. refl) (λ w. refl) (λ w. refl) 4
      (event 1) 0 (omega arith)
