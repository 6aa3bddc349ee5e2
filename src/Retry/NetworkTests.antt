-- ===== src/Retry/NetworkTests.antt =====
-- The retry worker and the order service in one world: the orders are its state.
use ecommerce_microservice.Prelude.{
  ℕ, String, ◌≡◌, refl, Bool, true, false, Option, none, some, List, [], ◌∷◌, str_eq, update_first,
  if◌then◌else◌,
}
use ecommerce_microservice.Shared.Json.{Json, null, bool, str, obj, end, field, get_field}
use ecommerce_microservice.Shared.Action.{ok, throw}
use ecommerce_microservice.Shared.Connection.{plain_error}
use ecommerce_microservice.Shared.Logger.{Logger}
use ecommerce_microservice.Shared.Dtos.{
  OrderStatus, pending, stock_reserved, payment_pending, confirmed, failed, InitiatePaymentResponse,
  PaymentRetryRequestedEvent, UpdateOrderPaymentStatusRequest,
}
use ecommerce_microservice.Shared.Broker.{ConfirmChannel}
use ecommerce_microservice.Shared.HttpClient.{
  HttpRequest, Transport, execute_with_retry, retry_loop, call,
}
use ecommerce_microservice.Shared.Network.{delivered}
use ecommerce_microservice.Shared.Middleware.{Gate, Validation, next, valid, invalid}
use ecommerce_microservice.Mongo.{Collection}
use ecommerce_microservice.Mongo.Memory.{memory, memory_laws, memory-Available}
use ecommerce_microservice.Order.Module
use ecommerce_microservice.Order.Model.{Order, same_order}
use ecommerce_microservice.Order.Routes.{OrderSchemas, Request}
use ecommerce_microservice.Retry.Clients
use ecommerce_microservice.Retry.Clients.{payment_status_path}
use ecommerce_microservice.Retry.Processor.{PaymentRetryProcessor, request_of, handle}
use ecommerce_microservice.Retry.Confirms.{confirmed_and_paid, Reaches, handle-confirms_order}

abbrev World : Type 0
World = List Order

abbrev stored : Collection World Order
stored = memory same_order (λ ds. ds) (λ ds _. ds)

abbrev silent : Logger World
silent level message w = w

abbrev broker : ConfirmChannel World PaymentRetryRequestedEvent
broker = record {
  publish = λ exchange key event c w. (none, w);
  send_to_queue = λ queue event c w. (none, w);
}

abbrev status_name : OrderStatus → String
status_name pending = "pending"
status_name stock_reserved = "stock_reserved"
status_name payment_pending = "payment_pending"
status_name confirmed = "confirmed"
status_name failed = "failed"

abbrev encode : UpdateOrderPaymentStatusRequest → Json
encode u = obj (
    field "paymentInitiated" (bool u.payment_initiated)
      (field "orderStatus" (str (status_name u.order_status)) end))

abbrev status_named : String → Option OrderStatus
status_named s =
    if str_eq s "pending"
    then some pending
    else if str_eq s "stock_reserved"
    then some stock_reserved
    else if str_eq s "payment_pending"
    then some payment_pending
    else if str_eq s "confirmed"
    then some confirmed
    else if str_eq s "failed"
    then some failed
    else none

abbrev update_from : Bool → Option OrderStatus → Validation UpdateOrderPaymentStatusRequest
update_from b none = invalid null
update_from b (some s) = valid (record { payment_initiated = b; order_status = s })

abbrev update_of : Option Json → Option Json → Validation UpdateOrderPaymentStatusRequest
update_of (some (bool b)) (some (str s)) = update_from b (status_named s)
update_of _ _ = invalid null

abbrev decode : Json → Validation UpdateOrderPaymentStatusRequest
decode body =
    update_of (get_field "paymentInitiated" (some body)) (get_field "orderStatus" (some body))

decode-encode :
    (b : Bool) (s : OrderStatus)
    → decode (encode (record { payment_initiated = b; order_status = s }))
      ≡ valid (record { payment_initiated = b; order_status = s })
decode-encode b pending = refl
decode-encode b stock_reserved = refl
decode-encode b payment_pending = refl
decode-encode b confirmed = refl
decode-encode b failed = refl

-- The route's pattern, at the one order of the test.
abbrev id_from : Json → Validation String
id_from (str path) =
    if str_eq path (payment_status_path "order-0") then valid "order-0" else invalid null
id_from _ = invalid null

abbrev schemas : OrderSchemas
schemas = record {
  create_order = λ _. invalid null;
  order_id_params = id_from;
  update_payment_status = decode;
}

abbrev received : HttpRequest UpdateOrderPaymentStatusRequest → Request
received r = record {
  correlation_id = "corr-0";
  headers = r.headers;
  params = str r.path;
  body = encode r.body;
}

abbrev order_env : Module.Env
order_env = record {
  payment_service_url = "http://payment-service:3004";
  product_service_url = "http://product-service:3002";
  customer_service_url = "http://customer-service:3001";
  internal_api_key = "a shared secret";
}

abbrev worker_env : Clients.Env
worker_env = record {
  payment_service_url = "http://payment-service:3004";
  order_service_url = "http://order-service:3003";
  internal_api_key = "a shared secret";
}

abbrev open_gate : Gate World
open_gate w = (ok next, w)

abbrev id_one : World → String × World
id_one w = ("order-1", w)

abbrev at_seven : World → ℕ × World
at_seven w = (7, w)

-- Nothing answers the order service's own calls here.
abbrev unanswered : {B T : Type 0} → String → Transport World B T
unanswered url = record { send = λ r w. (throw (plain_error "ECONNREFUSED"), w); fire = λ m. m }

abbrev order_axios : Module.Axios World
order_axios = record {
  payments = unanswered;
  products = unanswered;
  stock = unanswered;
  customers = unanswered;
}

abbrev order_router : Module.OrderRouter World
order_router =
    Module.create_order_module order_axios order_env silent (λ n w. w) broker stored id_one at_seven
      schemas open_gate open_gate

abbrev accepted : InitiatePaymentResponse
accepted = record { payment_id = "payment-0"; order_id = "order-0" }

-- The worker's requests reach the order service, and every payment is accepted.
abbrev worker_axios : Clients.Axios World
worker_axios = record {
  payments = λ url. record {
    send = λ r w. (ok (record { success = true; content = accepted }), w);
    fire = λ m. m;
  };
  orders = λ url. record {
    send = λ r w. delivered (order_router.payment_status (received r) w);
    fire = λ m. m;
  };
}

reachable :
    Reaches
      (worker_axios.orders "http://order-service:3003")
      order_router.payment_status
      schemas
      "order-0"
reachable = record {
  carries = record { arrives = received; closed = λ m w. refl; sends = λ r w. refl };
  keeps_headers = λ r. refl;
  reads_id = λ r e. rw e;
  reads_update = λ r. decode-encode r.body.payment_initiated r.body.order_status;
}

abbrev waiting_order : Order
waiting_order = record {
  order_id = "order-0";
  customer_id = "cust-1";
  product_id = "001";
  amount = 19990;
  order_status = payment_pending;
  payment_initiated = false;
  idempotency_key = none;
  created_at = 7;
}

abbrev event : PaymentRetryRequestedEvent
event = record {
  order_id = "order-0";
  customer_id = "cust-1";
  product_id = "001";
  amount = 19990;
  requested_at = 7;
  attempts = 1;
}

abbrev worker : PaymentRetryProcessor World
worker = Clients.new_processor worker_axios worker_env silent (λ n w. w) broker

pays :
    worker.initiate_payment (request_of event) (waiting_order ∷ [])
    ≡ (ok accepted, waiting_order ∷ [])
unfolding Clients.new_processor Clients.initiate_payment call execute_with_retry retry_loop
pays = refl

handle-confirms_order_example :
    (w' : World) × (handle worker event (waiting_order ∷ []) ≡ (ok tt, w'))
    × (w' ≡ update_first (λ o. str_eq o.order_id "order-0") confirmed_and_paid (waiting_order ∷ []))
handle-confirms_order_example =
    handle-confirms_order worker_axios worker_env silent (λ n w. w) broker order_axios order_env
      silent stored id_one at_seven schemas open_gate open_gate
      (memory_laws same_order (λ ds. ds) (λ ds _. ds) (λ ds w. refl))
      (memory-Available same_order (λ ds. ds) (λ ds _. ds)) refl refl "order-0" reachable
      waiting_order event accepted (waiting_order ∷ []) (waiting_order ∷ []) refl (λ l m v. refl)
      pays refl
