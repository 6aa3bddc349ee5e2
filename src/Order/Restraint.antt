-- ===== src/Order/Restraint.antt =====
-- What an attempt to pay may publish, and nothing else.
use ecommerce_microservice.Prelude.{ℕ, String, ◌≡◌, refl, inl, inr, true, Bool, Bool-cases, Option}
use ecommerce_microservice.Shared.Errors.{Error, is_upstream}
use ecommerce_microservice.Shared.Action.{throw, Action, settled}
use ecommerce_microservice.Shared.Logger.{LogLevel}
use ecommerce_microservice.Shared.Dtos.{InitiatePaymentRequest, PaymentRetryRequestedEvent}
use ecommerce_microservice.Order.Dependencies.{OrderService}
use ecommerce_microservice.Order.Service.{degrade_message, queue_for_retry, try_initiate_payment}

-- Another publisher that answers alike, if the payment failed with an upstream error, on the first retry
-- event of the payment, at any time, on the retry exchange.
abbrev pub PublishesRetry :
    {W : Type 0}
    → OrderService W
    → InitiatePaymentRequest
    → Option String
    → W
    → (String → String → PaymentRetryRequestedEvent → Option String → Action W Bool)
    → Type 0
PublishesRetry {W} s p c w publish =
    (x : Error) (u : W)
    → s.payment_client.initiate_payment p c w ≡ (throw x, u)
    → is_upstream x ≡ true
    → (now : ℕ) (v : W)
    → let event : PaymentRetryRequestedEvent = record {
      order_id = p.order_id;
      customer_id = p.customer_id;
      product_id = p.product_id;
      amount = p.amount;
      requested_at = now;
      attempts = 1;
    } in
      publish "payment.retry" "payment.retry.requested" event c v
      ≡ s.publish "payment.retry" "payment.retry.requested" event c v

module _ {W : Type 0} (s : OrderService W) (p : InitiatePaymentRequest) (c : Option String)
    (publish : String → String → PaymentRetryRequestedEvent → Option String → Action W Bool) where
  -- An attempt to pay runs to the same result with any other publisher that answers alike on the first
  -- retry event of the payment after an upstream failure: so it publishes nothing but that event, whose
  -- attempts are counted from one, and nothing at all if the payment is accepted or fails otherwise.
  pub try_initiate_payment-restrained :
      (w : W)
      → PublishesRetry s p c w publish
      → try_initiate_payment (record s { publish = publish }) p c w ≡ try_initiate_payment s p c w
  unfolding try_initiate_payment queue_for_retry
  try_initiate_payment-restrained w alike =
      elim (settled (s.payment_client.initiate_payment p c w)) [
        | inl (a, u, e) ↦ rw e refl
        | inr (x, u, e) ↦ elim (Bool-cases (is_upstream x)) [
          | inr other ↦ rw (e, other) refl
          | inl upstream ↦
              let (now, t) = s.now (s.logger LogLevel.warn degrade_message u) in
              rw (e, upstream, alike x u e upstream now t) refl
        ]
      ]
