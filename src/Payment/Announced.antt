-- ===== src/Payment/Announced.antt =====
-- A payment that is accepted was announced to the broker, which confirmed it.
use ecommerce_microservice.Prelude.{
  arith, ℕ, Bool, String, ◌≡◌, refl, sym, ap, subst, ◌∙◌, Option, none, some,
}
use ecommerce_microservice.Shared.Action.{ok, bind-eq-ok, ok-eq}
use ecommerce_microservice.Shared.Errors.{Error}
use ecommerce_microservice.Shared.Logger.{Logger, LogLevel}
use ecommerce_microservice.Shared.Broker
use ecommerce_microservice.Shared.Broker.{ConfirmChannel, confirmed_publish}
use ecommerce_microservice.Shared.Topology.{transaction_exchange, transaction_routing_key}
use ecommerce_microservice.Shared.Dtos.{
  InitiatePaymentRequest, InitiatePaymentResponse, TransactionCreatedEvent,
}
use ecommerce_microservice.Payment.Service.{
  PaymentService, publish_transaction_created, transaction_event, process_payment,
}

-- What the publisher logs after the broker confirmed.
abbrev pub confirmed_message : String
confirmed_message = "Message published and confirmed by broker"

module _ {W : Type 0} (channel : ConfirmChannel W TransactionCreatedEvent) (logger : Logger W) where
  confirmed_publish-ok :
      (p : Option Error × W) {b : Bool} {w : W}
      → confirmed_publish channel logger p ≡ (ok b, w)
      → (v : W) × (p ≡ (none, v)) × (w ≡ logger LogLevel.info confirmed_message v)
  confirmed_publish-ok (none, u) h = (u, refl, ground arith)
  confirmed_publish-ok (some e, u) h = cc

  -- If a payment is answered as accepted by a service that publishes over the channel, the broker
  -- confirmed one message: the transaction event of the request's order, customer, product and
  -- amount, whose transaction id is the payment id of the answer.
  pub process_payment-confirmed :
      (s : PaymentService W)
      → s.publish_transaction_created ≡ publish_transaction_created channel logger
      → (request : InitiatePaymentRequest) (c : Option String) (w w' : W)
        (r : InitiatePaymentResponse)
      → process_payment s request c w ≡ (ok r, w')
      → (now : ℕ) × (u : W) × (v : W) × (channel.publish transaction_exchange
            transaction_routing_key
            (transaction_event request r.payment_id now)
            c
            u
          ≡ (none, v))
        × (r.order_id ≡ request.order_id)
        × (w' ≡ logger LogLevel.info confirmed_message v)
  unfolding process_payment publish_transaction_created Broker.publish
  process_payment-confirmed s over request c w w' r h =
      let (payment_id, u1) = s.random_uuid w in
      let (now, u) = s.now u1 in
      let event = transaction_event request payment_id now in
      let (done, v, published, rest) = bind-eq-ok (s.publish_transaction_created event c u) _ h in
      let same = sym (ap (λ f. f event c u) over) ∙ published in
      let (b, z, confirmed, last) =
        bind-eq-ok
          (Broker.publish channel logger transaction_exchange transaction_routing_key event c u) _
          same in
      let (answer, world) = ok-eq rest in
      let (y, sent, told) =
        confirmed_publish-ok
          (channel.publish transaction_exchange transaction_routing_key event c u) confirmed in
      subst
        (λ (q : InitiatePaymentResponse).
          (now : ℕ) × (u : W) × (v : W) × (channel.publish transaction_exchange
              transaction_routing_key (transaction_event request q.payment_id now) c u
            ≡ (none, v))
          × (q.order_id ≡ request.order_id)
          × (w' ≡ logger LogLevel.info confirmed_message v))
        answer (now, u, y, sent, refl, sym world ∙ sym (ok-eq last).1 ∙ told)
