-- ===== src/Retry/Clients.antt =====
-- payment-retry-worker/src/clients, and the parts that worker.ts puts together round the processor.
use ecommerce_microservice.Prelude.{ℕ, String, none, some, []}
use ecommerce_microservice.Shared.Errors.{◌++ˢ◌}
use ecommerce_microservice.Shared.Action.{Action, pure, ◌>>=◌}
use ecommerce_microservice.Shared.Logger.{Logger}
use ecommerce_microservice.Shared.Broker
use ecommerce_microservice.Shared.Broker.{ConfirmChannel}
use ecommerce_microservice.Shared.Dtos.{
  ApiSuccessResponse, CreateOrderResponse, InitiatePaymentRequest, InitiatePaymentResponse,
  PaymentRetryRequestedEvent, UpdateOrderPaymentStatusRequest,
}
use ecommerce_microservice.Shared.HttpClient.{HttpClient, Transport, Method, new_http_client, call}
use ecommerce_microservice.Retry.Processor.{PaymentRetryProcessor}

-- The part of the environment that the clients read.
pub record Env : Type 0 where
  pub payment_service_url : String
  pub order_service_url : String
  pub internal_api_key : String

-- The axios instance that HttpClient creates for a base URL, at the types that the clients use.
pub record Axios (W : Type 0) : Type 0 where
  pub payments :
      String → Transport W InitiatePaymentRequest (ApiSuccessResponse InitiatePaymentResponse)
  pub orders :
      String → Transport W UpdateOrderPaymentStatusRequest (ApiSuccessResponse CreateOrderResponse)

abbrev pub payment_status_path : String → String
payment_status_path order_id = "/orders/" ++ˢ order_id ++ˢ "/payment-status"

module _ {W : Type 0} (http : HttpClient W) where
  unfoldable pub initiate_payment :
      Transport W InitiatePaymentRequest (ApiSuccessResponse InitiatePaymentResponse)
      → InitiatePaymentRequest
      → Action W InitiatePaymentResponse
  initiate_payment t request = do
    response ← call Method.post http t "/payments" request none []
    pure response.content

  -- The answer is dropped.
  unfoldable pub update_payment_status :
      {T : Type 0}
      → Transport W UpdateOrderPaymentStatusRequest T
      → String
      → UpdateOrderPaymentStatusRequest
      → Action W (Unit {0})
  update_payment_status t order_id update =
      call Method.patch http t (payment_status_path order_id) update none [] >>= λ _. pure tt

module _ {W : Type 0} (axios : Axios W) (env : Env) (logger : Logger W) (wait : ℕ → W → W)
    (channel : ConfirmChannel W PaymentRetryRequestedEvent) where
  abbrev pub http_client_for : String → HttpClient W
  http_client_for service_name =
      new_http_client service_name logger wait none (some env.internal_api_key)

  unfoldable pub new_processor : PaymentRetryProcessor W
  new_processor = record {
    initiate_payment =
        initiate_payment (http_client_for "payment-service")
          (axios.payments env.payment_service_url);
    update_payment_status =
        update_payment_status (http_client_for "order-service")
          (axios.orders env.order_service_url);
    send_to_queue = λ queue event. Broker.send_to_queue channel logger queue event none;
    logger = logger;
  }
