-- ===== src/Order/Quiet.antt =====
-- What a checkout's dependencies leave alone: the record of those that touch neither the stock nor
-- the orders, and that an attempt at payment leaves alone what they do.
use ecommerce_microservice.Prelude.{
  String, ◌≡◌, refl, ◌∙◌, inl, inr, true, false, Bool-cases, Bool, Option,
}
use ecommerce_microservice.Shared.Action.{settled}
use ecommerce_microservice.Shared.Errors.{is_upstream}
use ecommerce_microservice.Shared.Logger.{LogLevel}
use ecommerce_microservice.Shared.Leaves.{Leaves}
use ecommerce_microservice.Shared.Topology.{retry_exchange, retry_routing_key}
use ecommerce_microservice.Shared.Dtos.{InitiatePaymentRequest, PaymentRetryRequestedEvent}
use ecommerce_microservice.Order.Dependencies.{OrderService, retry_event}
use ecommerce_microservice.Order.Service.{
  degrade_message, unpublished_message, mismatch_message, queue_for_retry, try_initiate_payment,
  warn_mismatch,
}

pub record Quiet {W X : Type 0} (s : OrderService W) (view : W → X) : Type 0 where
  pub asks_customer :
      (id : String) (c : Option String) → Leaves view (s.customer_client.get_customer id c)
  pub asks_product :
      (id : String) (c : Option String) → Leaves view (s.product_client.get_product id c)
  pub pays :
      (p : InitiatePaymentRequest) (c : Option String)
      → Leaves view (s.payment_client.initiate_payment p c)
  pub publishes :
      (x k : String) (e : PaymentRetryRequestedEvent) (c : Option String)
      → Leaves view (s.publish x k e c)
  pub logs : (l : LogLevel) (m : String) (w : W) → view (s.logger l m w) ≡ view w
  pub draws_uuid : (w : W) → view (s.uuid w).1 ≡ view w
  pub draws_now : (w : W) → view (s.now w).1 ≡ view w

module _ {W X : Type 0} {s : OrderService W} {view : W → X} (quiet : Quiet s view) where
  pub queue_for_retry-Leaves :
      (p : InitiatePaymentRequest) (c : Option String) → Leaves view (queue_for_retry s p c)
  unfolding queue_for_retry
  queue_for_retry-Leaves p c w =
      let logged = s.logger LogLevel.warn degrade_message w in
      let (now, u) = s.now logged in
      let before = quiet.draws_now logged ∙ quiet.logs LogLevel.warn degrade_message w in
      let same = quiet.publishes retry_exchange retry_routing_key (retry_event p now) c u in
      elim (settled (s.publish retry_exchange retry_routing_key (retry_event p now) c u)) [
        | inl (b, v, e) ↦ rw e ((rw e at same) ∙ before)
        | inr (x, v, e) ↦
            rw e (quiet.logs LogLevel.error unpublished_message v ∙ (rw e at same) ∙ before)
      ]

  pub try_initiate_payment-Leaves :
      (p : InitiatePaymentRequest) (c : Option String) → Leaves view (try_initiate_payment s p c)
  unfolding try_initiate_payment
  try_initiate_payment-Leaves p c w =
      let same = quiet.pays p c w in
      elim (settled (s.payment_client.initiate_payment p c w)) [
        | inl (r, u, e) ↦ rw e (rw e at same)
        | inr (x, u, e) ↦ elim (Bool-cases (is_upstream x)) [
          | inl upstream ↦ rw (e, upstream) (queue_for_retry-Leaves p c u ∙ (rw e at same))
          | inr other ↦ rw (e, other) (rw e at same)
        ]
      ]

  pub warn_mismatch-Leaves : (b : Bool) → Leaves view (warn_mismatch s b)
  warn_mismatch-Leaves false w = refl
  warn_mismatch-Leaves true w = quiet.logs LogLevel.warn mismatch_message w
