-- ===== src/Payment/Tests.antt =====
-- The payment service at work: the world lists the events that the broker confirmed.
use ecommerce_microservice.Prelude.{◌≡◌, refl, none, List, [], ◌∷◌}
use ecommerce_microservice.Shared.Action.{ok}
use ecommerce_microservice.Shared.Logger.{Logger}
use ecommerce_microservice.Shared.Broker
use ecommerce_microservice.Shared.Broker.{ConfirmChannel}
use ecommerce_microservice.Shared.Dtos.{
  InitiatePaymentRequest, InitiatePaymentResponse, TransactionCreatedEvent,
}
use ecommerce_microservice.Payment.Service.{
  PaymentService, publish_transaction_created, transaction_event, process_payment,
}

abbrev Sent : Type 0
Sent = List TransactionCreatedEvent

abbrev channel : ConfirmChannel Sent TransactionCreatedEvent
channel = record {
  publish = λ exchange key event c sent. (none, event ∷ sent);
  send_to_queue = λ queue event c sent. (none, event ∷ sent);
}

abbrev silent : Logger Sent
silent level message sent = sent

abbrev payments : PaymentService Sent
payments = record {
  publish_transaction_created = publish_transaction_created channel silent;
  random_uuid = λ sent. ("payment-0", sent);
  now = λ sent. (7, sent);
}

abbrev lamp_payment : InitiatePaymentRequest
lamp_payment = record {
  customer_id = "cust-1";
  order_id = "order-0";
  product_id = "001";
  amount = 19990;
}

abbrev accepted : InitiatePaymentResponse
accepted = record { payment_id = "payment-0"; order_id = "order-0" }

pay_lamp :
    process_payment payments lamp_payment none []
    ≡ (ok accepted, transaction_event lamp_payment "payment-0" 7 ∷ [])
unfolding process_payment publish_transaction_created Broker.publish
pay_lamp = refl
