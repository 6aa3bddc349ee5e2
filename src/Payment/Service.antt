-- ===== src/Payment/Service.antt =====
-- payment-service/src: services/PaymentService.ts, rabbitmq/RabbitMQTransactionPublisher.ts over the
-- shared publisher, controllers/PaymentController.ts and routes/paymentRoutes.ts.
use ecommerce_microservice.Prelude.{ℕ, String, Option, some, [], ◌∷◌}
use ecommerce_microservice.Shared.Json.{Json}
use ecommerce_microservice.Shared.Action.{Action, ok, pure, ◌>>=◌, ◌>>◌}
use ecommerce_microservice.Shared.Logger.{Logger}
use ecommerce_microservice.Shared.Headers.{Headers, header, correlation_id_header}
use ecommerce_microservice.Shared.Broker
use ecommerce_microservice.Shared.Broker.{ConfirmChannel}
use ecommerce_microservice.Shared.Topology.{transaction_exchange, transaction_routing_key}
use ecommerce_microservice.Shared.Dtos.{
  InitiatePaymentRequest, InitiatePaymentResponse, TransactionCreatedEvent,
}
use ecommerce_microservice.Shared.ErrorHandler.{Reply, success, async_handler}
use ecommerce_microservice.Shared.Middleware.{
  Validation, guarded_by, internal_auth, validate_request,
}

-- The constructor's argument, an ITransactionEventPublisher, and what the runtime gives.
pub record PaymentService (W : Type 0) : Type 0 where
  pub publish_transaction_created : TransactionCreatedEvent → Option String → Action W (Unit {0})
  pub random_uuid : W → String × W
  pub now : W → ℕ × W

-- RabbitMQTransactionPublisher
unfoldable pub publish_transaction_created :
    {W : Type 0}
    → ConfirmChannel W TransactionCreatedEvent
    → Logger W
    → TransactionCreatedEvent
    → Option String
    → Action W (Unit {0})
publish_transaction_created channel logger event correlation_id =
    Broker.publish channel logger transaction_exchange transaction_routing_key event correlation_id
    >>= λ _. pure tt

abbrev pub transaction_event : InitiatePaymentRequest → String → ℕ → TransactionCreatedEvent
transaction_event request payment_id now = record {
  transaction_id = payment_id;
  customer_id = request.customer_id;
  order_id = request.order_id;
  product_id = request.product_id;
  amount = request.amount;
  created_at = now;
}

module _ {W : Type 0} (s : PaymentService W) where
  abbrev pub draw : {A : Type 0} → (W → A × W) → Action W A
  draw f w = let (a, w') = f w in (ok a, w')

  unfoldable pub process_payment :
      InitiatePaymentRequest → Option String → Action W InitiatePaymentResponse
  process_payment request correlation_id = do
    payment_id ← draw s.random_uuid
    now ← draw s.now
    s.publish_transaction_created (transaction_event request payment_id now) correlation_id
    pure (record { payment_id = payment_id; order_id = request.order_id })

  unfoldable pub initiate_payment :
      InitiatePaymentRequest → String → Action W (Reply InitiatePaymentResponse)
  initiate_payment request correlation_id = do
    result ← process_payment request (some correlation_id)
    pure (success 201 result)

  -- `correlation_id` is what correlationIdMiddleware set, and `schema` is Joi's reading of `initiatePaymentSchema`.
  unfoldable pub payment_route :
      Logger W
      → (Json → Validation InitiatePaymentRequest)
      → String
      → String
      → Headers
      → Json
      → W
      → Reply InitiatePaymentResponse × W
  payment_route logger schema internal_api_key correlation_id headers body =
      async_handler logger (header correlation_id_header headers) (
        guarded_by (internal_auth internal_api_key headers ∷ [])
          (validate_request schema body >>= λ request. initiate_payment request correlation_id))
