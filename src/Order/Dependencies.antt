-- ===== src/Order/Dependencies.antt =====
-- order-service/src/services/OrderService.ts: the parts of the class, and the values it builds.
use ecommerce_microservice.Prelude.{
  ℕ, ◌+◌, ◌-◌, String, Bool, true, false, ◌&&◌, Option, none, some, ltb, ◌==◌,
}
use ecommerce_microservice.Shared.Errors.{Error, numeric_code_of}
use ecommerce_microservice.Shared.Action.{Action}
use ecommerce_microservice.Shared.Logger.{Logger}
use ecommerce_microservice.Shared.Headers.{truthy}
use ecommerce_microservice.Shared.Dtos.{
  stock_reserved, payment_pending, confirmed, CreateOrderRequest, CreateOrderResponse,
  OrderStatusResponse, InitiatePaymentRequest, PaymentRetryRequestedEvent,
  UpdateOrderPaymentStatusRequest,
}
use ecommerce_microservice.Order.Model.{Order}
use ecommerce_microservice.Order.Repository.{OrderRepository}
use ecommerce_microservice.Order.Clients.{CustomerClient, ProductClient, PaymentClient}

abbrev pub order_quantity : ℕ
order_quantity = 1

abbrev pub mongo_duplicate_key_code : ℕ
mongo_duplicate_key_code = 11000

-- The constructor's arguments, and what the runtime gives: `uuidv4` and the clock. `publish` is
-- `Publisher.publish` at the type of the event, with its exchange, routing key and correlation id.
pub record OrderService (W : Type 0) : Type 0 where
  pub order_repo : OrderRepository W
  pub payment_client : PaymentClient W
  pub product_client : ProductClient W
  pub customer_client : CustomerClient W
  pub publish : String → String → PaymentRetryRequestedEvent → Option String → Action W Bool
  pub logger : Logger W
  pub uuid : W → String × W
  pub now : W → ℕ × W

abbrev pub to_response : Order → CreateOrderResponse
to_response order = record {
  customer_id = order.customer_id;
  order_id = order.order_id;
  product_id = order.product_id;
  order_status = order.order_status;
}

abbrev pub to_status_response : Order → OrderStatusResponse
to_status_response order = record {
  order_id = order.order_id;
  customer_id = order.customer_id;
  product_id = order.product_id;
  order_status = order.order_status;
  payment_initiated = order.payment_initiated;
}

abbrev pub key_text : Option String → String
key_text none = ""
key_text (some key) = key

-- `if (updated) saved = updated`
abbrev pub or_saved : Option Order → Order → Order
or_saved none saved = saved
or_saved (some updated) saved = updated

-- `Math.abs(request.amount - price) > 0.001`, in thousandths; false with no amount.
abbrev pub is_mismatch : Option ℕ → ℕ → Bool
is_mismatch none price = false
is_mismatch (some amount) price = ltb 1 ((amount - price) + (price - amount))

abbrev pub is_code : ℕ → Option ℕ → Bool
is_code n none = false
is_code n (some m) = m == n

-- `idempotencyKey && err.code === MONGO_DUPLICATE_KEY_CODE`
abbrev pub is_duplicate_key : Option String → Error → Bool
is_duplicate_key key err = truthy key && is_code mongo_duplicate_key_code (numeric_code_of err)

abbrev pub pending_update : UpdateOrderPaymentStatusRequest
pending_update = record { payment_initiated = false; order_status = payment_pending }

abbrev pub confirmed_update : UpdateOrderPaymentStatusRequest
confirmed_update = record { payment_initiated = true; order_status = confirmed }

abbrev pub retry_event : InitiatePaymentRequest → ℕ → PaymentRetryRequestedEvent
retry_event payload now = record {
  order_id = payload.order_id;
  customer_id = payload.customer_id;
  product_id = payload.product_id;
  amount = payload.amount;
  requested_at = now;
  attempts = 1;
}

abbrev pub payload_of : CreateOrderRequest → String → ℕ → InitiatePaymentRequest
payload_of request order_id amount = record {
  customer_id = request.customer_id;
  order_id = order_id;
  product_id = request.product_id;
  amount = amount;
}

abbrev pub new_order : CreateOrderRequest → Option String → String → ℕ → ℕ → Order
new_order request key order_id amount now = record {
  order_id = order_id;
  customer_id = request.customer_id;
  product_id = request.product_id;
  amount = amount;
  order_status = stock_reserved;
  payment_initiated = false;
  idempotency_key = key;
  created_at = now;
}
