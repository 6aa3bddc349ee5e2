-- ===== src/Order/CheckoutTests.antt =====
-- The order service's checkout and the payment service in one world: the orders, and the events that the
-- broker confirmed.
use ecommerce_microservice.Prelude.{ℕ, String, true, none, some, List, [], ◌∷◌}
use ecommerce_microservice.Prelude.Int.{pos}
use ecommerce_microservice.Shared.Json.{Json, null, num, str, obj, end, field}
use ecommerce_microservice.Shared.Action.{ok}
use ecommerce_microservice.Shared.Logger.{Logger}
use ecommerce_microservice.Shared.Dtos.{
  confirmed, ApiSuccessResponse, CreateOrderRequest, CreateOrderResponse, InitiatePaymentRequest,
  InitiatePaymentResponse, TransactionCreatedEvent,
}
use ecommerce_microservice.Shared.Broker
use ecommerce_microservice.Shared.Broker.{ConfirmChannel}
use ecommerce_microservice.Shared.HttpClient.{HttpClient, HttpRequest, Transport}
use ecommerce_microservice.Shared.ErrorHandler.{Reply}
use ecommerce_microservice.Shared.Network.{delivered}
use ecommerce_microservice.Shared.Middleware.{Validation, valid, invalid}
use ecommerce_microservice.Mongo.{Collection}
use ecommerce_microservice.Mongo.Memory.{memory}
use ecommerce_microservice.Payment.Service
use ecommerce_microservice.Payment.Service.{transaction_event}
use ecommerce_microservice.Order.Clients
use ecommerce_microservice.Order.Clients.{ProductInfo}
use ecommerce_microservice.Order.Model.{Order, same_order}
use ecommerce_microservice.Order.Repository
use ecommerce_microservice.Order.Repository.{mongo_order_repository}
use ecommerce_microservice.Order.Dependencies.{OrderService, new_order, payload_of}
use ecommerce_microservice.Order.RemotePayment.{PaymentRequest, payment_route_of}

pub record Counter : Type 0 where
  pub orders : List Order
  pub sent : List TransactionCreatedEvent

abbrev orders_of : Counter → List Order
orders_of w = w.orders

abbrev put_orders : List Order → Counter → Counter
put_orders ds w = record w { orders = ds }

abbrev book : Collection Counter Order
book = memory same_order orders_of put_orders

abbrev channel : ConfirmChannel Counter TransactionCreatedEvent
channel = record {
  publish = λ exchange key event c w. (none, record w { sent = event ∷ w.sent });
  send_to_queue = λ queue event c w. (none, record w { sent = event ∷ w.sent });
}

abbrev silent : Logger Counter
silent level message w = w

abbrev http : HttpClient Counter
http = record {
  service_name = "payment-service";
  max_retries = 3;
  internal_api_key = some "a shared secret";
  logger = silent;
  wait = λ n w. w;
}

abbrev uuid : Counter → String × Counter
uuid w = ("payment-0", w)

abbrev clock : Counter → ℕ × Counter
clock w = (7, w)

abbrev written : InitiatePaymentRequest → Json
written r = obj (
    field "customerId" (str r.customer_id) (
      field "orderId" (str r.order_id)
        (field "productId" (str r.product_id) (field "amount" (num r.amount) end))))

abbrev schema : Json → Validation InitiatePaymentRequest
schema (obj (field _ (str c) (field _ (str o) (field _ (str p) (field _ (num a) end))))) =
    valid (record { customer_id = c; order_id = o; product_id = p; amount = a })
schema _ = invalid null

abbrev received : HttpRequest InitiatePaymentRequest → PaymentRequest
received r = record { correlation_id = "corr-1"; headers = r.headers; body = written r.body }

abbrev route : PaymentRequest → Counter → Reply InitiatePaymentResponse × Counter
route = payment_route_of channel silent uuid clock schema "a shared secret"

abbrev wire : Transport Counter InitiatePaymentRequest (ApiSuccessResponse InitiatePaymentResponse)
wire = record { send = λ r w. delivered (route (received r) w); fire = λ m. m }

abbrev lamp : ProductInfo
lamp = record { product_id = "001"; name = "Lamp"; price = 19990; stock = pos 3 }

abbrev counter_service : OrderService Counter
counter_service = record {
  order_repo = mongo_order_repository book;
  payment_client = record { initiate_payment = Clients.initiate_payment http wire };
  product_client = record {
    get_product = λ id c w. (ok lamp, w);
    reserve_stock = λ id n c w. (ok tt, w);
    release_stock = λ id n c w. (ok tt, w);
  };
  customer_client = record {
    get_customer =
        λ id c w. (ok (record { customer_id = id; name = "Ada"; email = "ada@example.org" }), w);
  };
  publish = λ exchange key event c w. (ok true, w);
  logger = silent;
  uuid = λ w. ("order-0", w);
  now = λ w. (7, w);
}

abbrev lamp_request : CreateOrderRequest
lamp_request = record { customer_id = "cust-1"; product_id = "001"; amount = none }

abbrev opening : Counter
opening = record { orders = []; sent = [] }

abbrev lamp_response : CreateOrderResponse
lamp_response = record {
  customer_id = "cust-1";
  order_id = "order-0";
  product_id = "001";
  order_status = confirmed;
}

abbrev closing : Counter
closing = record {
  orders =
      record (new_order lamp_request none "order-0" 19990 7) {
        order_status = confirmed;
        payment_initiated = true;
      }
      ∷ [];
  sent = transaction_event (payload_of lamp_request "order-0" 19990) "payment-0" 7 ∷ [];
}
