-- ===== src/Order/PaymentTests.antt =====
-- The order service's payment client and the payment service in one world, the list of the events that
-- the broker confirmed, with a network that loses nothing.
use ecommerce_microservice.Prelude.{ℕ, String, Option, none, List, ◌∷◌}
use ecommerce_microservice.Shared.Json.{Json, null, num, str, obj, end, field}
use ecommerce_microservice.Shared.Logger.{Logger}
use ecommerce_microservice.Shared.Dtos.{
  ApiSuccessResponse, InitiatePaymentRequest, InitiatePaymentResponse, TransactionCreatedEvent,
}
use ecommerce_microservice.Shared.Broker
use ecommerce_microservice.Shared.Broker.{ConfirmChannel}
use ecommerce_microservice.Shared.HttpClient.{HttpClient, HttpRequest, Transport}
use ecommerce_microservice.Shared.ErrorHandler.{Reply}
use ecommerce_microservice.Shared.Network.{delivered}
use ecommerce_microservice.Shared.Middleware.{Validation, valid, invalid}
use ecommerce_microservice.Payment.Service
use ecommerce_microservice.Order.Clients
use ecommerce_microservice.Order.RemotePayment.{PaymentRequest, payment_route_of}

abbrev Sent : Type 0
Sent = List TransactionCreatedEvent

abbrev channel : ConfirmChannel Sent TransactionCreatedEvent
channel = record {
  publish = λ exchange key event c sent. (none, event ∷ sent);
  send_to_queue = λ queue event c sent. (none, event ∷ sent);
}

abbrev silent : Logger Sent
silent level message sent = sent

abbrev http : HttpClient Sent
http = record {
  service_name = "payment-service";
  max_retries = 3;
  internal_api_key = Option.some "a shared secret";
  logger = silent;
  wait = λ n sent. sent;
}

abbrev uuid : Sent → String × Sent
uuid sent = ("payment-0", sent)

abbrev clock : Sent → ℕ × Sent
clock sent = (7, sent)

-- The body on the wire, and its reading.
abbrev lamp_payment : InitiatePaymentRequest
lamp_payment = record {
  customer_id = "cust-1";
  order_id = "order-0";
  product_id = "001";
  amount = 19990;
}

abbrev written : InitiatePaymentRequest → Json
written r = obj (
    field "customerId" (str r.customer_id) (
      field "orderId" (str r.order_id)
        (field "productId" (str r.product_id) (field "amount" (num r.amount) end))))

abbrev schema : Json → Validation InitiatePaymentRequest
schema (obj (field _ (str c) (field _ (str o) (field _ (str p) (field _ (num a) end))))) =
    valid (record { customer_id = c; order_id = o; product_id = p; amount = a })
schema _ = invalid null

abbrev received : HttpRequest InitiatePaymentRequest → PaymentRequest
received r = record { correlation_id = "corr-1"; headers = r.headers; body = written r.body }

abbrev route : PaymentRequest → Sent → Reply InitiatePaymentResponse × Sent
route = payment_route_of channel silent uuid clock schema "a shared secret"

abbrev wire : Transport Sent InitiatePaymentRequest (ApiSuccessResponse InitiatePaymentResponse)
wire = record { send = λ r sent. delivered (route (received r) sent); fire = λ m. m }

abbrev accepted : InitiatePaymentResponse
accepted = record { payment_id = "payment-0"; order_id = "order-0" }
