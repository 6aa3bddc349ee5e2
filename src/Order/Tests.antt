-- ===== src/Order/Tests.antt =====
-- The order service at work, on the site of Tests/World.antt.
mod World
mod PaidOnRecord
use ecommerce_microservice.Prelude.{
  if◌then◌else◌, str_eq, ◌&&◌, ◌==◌, ℕ, ◌+◌, String, ◌≡◌, ◌≢◌, refl, ap, Bool, true, false, inl,
  inr, Option, none, some, List, [], ◌∷◌, find, arith,
}
use ecommerce_microservice.Prelude.Int.{pos}
use ecommerce_microservice.Shared.Errors.{Error, foreign, ConflictError, ◌++ˢ◌}
use ecommerce_microservice.Shared.Action.{Outcome, ok, throw, Action}
use ecommerce_microservice.Shared.Logger.{LogLevel}
use ecommerce_microservice.Shared.Headers.{header, internal_api_key_header, truthy}
use ecommerce_microservice.Shared.Dtos.{
  OrderStatus, confirmed, payment_pending, failed, UpdateOrderPaymentStatusRequest, stock_reserved,
  CreateOrderRequest, CreateOrderResponse, InitiatePaymentRequest, InitiatePaymentResponse,
  ApiSuccessResponse, PaymentRetryRequestedEvent,
}
use ecommerce_microservice.Shared.HttpClient.{HttpClient, Transport}
use ecommerce_microservice.Shared.Json.{null}
use ecommerce_microservice.Shared.ErrorHandler.{Reply, failure}
use ecommerce_microservice.Shared.Middleware
use ecommerce_microservice.Shared.Middleware.{Verdict, next, Validation, valid, forbidden}
use ecommerce_microservice.Product.Model.{Product}
use ecommerce_microservice.Order.Clients
use ecommerce_microservice.Order.Clients.{StockMutation}
use ecommerce_microservice.Order.Repository
use ecommerce_microservice.Order.Model.{Order}
use ecommerce_microservice.Order.Repository.{has_order_id, mongo_order_repository}
use ecommerce_microservice.Order.Dependencies.{OrderService, to_response, retry_event}
use ecommerce_microservice.Order.Service.{
  update_payment_status, get_order_status, create_order, checkout, place_order, take_payment,
  recover, try_initiate_payment, queue_for_retry, compensate_stock_release,
}
use ecommerce_microservice.Order.Requests.{
  Reaches, create_order-replay, create_order-unreserved, create_order-amount_ignored,
}
use ecommerce_microservice.Order.Restraint.{try_initiate_payment-restrained}
use ecommerce_microservice.Order.Degradation.{
  refused_by_stock, try_initiate_payment-queues, try_initiate_payment_total, reserve_stock-conflict,
}
use ecommerce_microservice.Order.Ledger.{IsBalanced}
use ecommerce_microservice.Order.Ledger.Conservation.{create_order-IsBalanced}
use ecommerce_microservice.Order.Recorded.{Recorded}
use ecommerce_microservice.Order.Recorded.Replay.{create_order-Recorded, create_order_idempotent}
use ecommerce_microservice.Order.Routes.{
  OrderSchemas, Request, payment_status_route, payment_status_route-refuses,
}
use ecommerce_microservice.Order.Status.{reported, get_order_status-update_payment_status}
use ecommerce_microservice.Order.Tests.World.{
  Site, quiet_site, stored, stored_laws, service, paid, down, down_error, lamp_request, counts,
  service-LedgerLaws, service-Bystanders,
}

abbrev key : Option String
key = some "key-1"

abbrev lamp_order : OrderStatus → Bool → Order
lamp_order status initiated = record {
  order_id = "order-0";
  customer_id = "cust-1";
  product_id = "001";
  amount = 19990;
  order_status = status;
  payment_initiated = initiated;
  idempotency_key = key;
  created_at = 7;
}

abbrev lamp_response : OrderStatus → CreateOrderResponse
lamp_response status = to_response (lamp_order status true)

abbrev sold : Site
sold = record { orders = lamp_order confirmed true ∷ []; held = 1; minted = 1; sent = [] }

abbrev lamp_payment : InitiatePaymentRequest
lamp_payment = record {
  customer_id = "cust-1";
  order_id = "order-0";
  product_id = "001";
  amount = 19990;
}

abbrev queued : Site
queued = record {
  orders = lamp_order payment_pending false ∷ [];
  held = 1;
  minted = 1;
  sent = retry_event lamp_payment 7 ∷ [];
}

-- A first request, with payments up and with payments down.
create_lamp :
    create_order (service paid) lamp_request none key quiet_site
    ≡ (ok (lamp_response confirmed), sold)
unfolding create_order checkout place_order take_payment try_initiate_payment mongo_order_repository
    Repository.create Repository.find_by_idempotency_key Repository.update_payment_status
create_lamp = refl

create_lamp_queued :
    create_order (service down) lamp_request none key quiet_site
    ≡ (ok (lamp_response payment_pending), queued)
unfolding create_order checkout place_order take_payment try_initiate_payment queue_for_retry
    mongo_order_repository Repository.create Repository.find_by_idempotency_key
    Repository.update_payment_status
create_lamp_queued = refl

-- The order id is taken: the order cannot be written, and its unit goes back.
create_taken :
    (create_order (service paid) lamp_request none none (record sold { minted = 0 })).1
    ≡ record sold { minted = 1 }
unfolding create_order checkout place_order recover compensate_stock_release mongo_order_repository
    Repository.create
create_taken = refl

taken_id-IsBalanced :
    IsBalanced
      (counts (record sold { minted = 0 }))
      (counts (create_order (service paid) lamp_request none none (record sold { minted = 0 })).1)
taken_id-IsBalanced =
    create_order-IsBalanced lamp_request service-LedgerLaws none none (record sold { minted = 0 })

create_order-Recorded_example : Recorded key queued.orders (lamp_response payment_pending)
create_order-Recorded_example =
    create_order-Recorded stored_laws (service-Bystanders down (λ p c w. refl)) refl lamp_request
      none key (lamp_response payment_pending) quiet_site queued create_lamp_queued

find_lamp :
    (service paid).order_repo.find_by_idempotency_key "key-1" sold
    ≡ (ok (some (lamp_order confirmed true)), sold)
unfolding mongo_order_repository Repository.find_by_idempotency_key
find_lamp = refl

abbrev other_request : CreateOrderRequest
other_request = record { customer_id = "cust-2"; product_id = "002"; amount = some 5 }

create_order_idempotent_example :
    (r' : CreateOrderResponse) × (u' : Site) × (create_order
        (service paid)
        other_request
        none
        key
        sold
      ≡ (ok r', u'))
    × (r'.order_id ≡ "order-0")
    × (u'.orders ≡ sold.orders)
create_order_idempotent_example =
    create_order_idempotent stored_laws (service-Bystanders paid (λ p c w. refl)) refl lamp_request
      other_request none none key (lamp_response confirmed) quiet_site sold sold refl create_lamp
      refl (some (lamp_order confirmed true)) sold find_lamp

-- The same service with an empty shelf behind it.
abbrev empty_shelf : OrderService Site
empty_shelf = record (service paid) {
  product_client = record (service paid).product_client {
    reserve_stock = λ id n c w. (throw (ConflictError "Insufficient stock for product 001"), w);
  };
}

comes_to_reservation : Reaches empty_shelf lamp_request none none quiet_site 19990 quiet_site
comes_to_reservation = record {
  looked = quiet_site;
  fresh = inl (refl, refl);
  customer = record { customer_id = "cust-1"; name = "Ada"; email = "ada@example.org" };
  asked = quiet_site;
  customer_known = refl;
  product = record { product_id = "001"; name = "Lamp"; price = 19990; stock = pos 3 };
  priced = quiet_site;
  product_known = refl;
  price_is = refl;
  warned = refl;
}

refused_reservation :
    create_order empty_shelf lamp_request none none quiet_site
    ≡ (throw (ConflictError "Insufficient stock for product 001"), quiet_site)
refused_reservation =
    create_order-unreserved empty_shelf lamp_request none none
      (ConflictError "Insufficient stock for product 001") quiet_site comes_to_reservation refl

amounts_ignored :
    create_order (service paid) (record lamp_request { amount = none }) none key quiet_site
    ≡ create_order (service paid) (record lamp_request { amount = some 1 }) none key quiet_site
amounts_ignored =
    create_order-amount_ignored (service paid) lamp_request none key (λ l m w. refl) none (some 1)
      quiet_site

payment_queued :
    try_initiate_payment (service down) lamp_payment none quiet_site
    ≡ (ok false, record quiet_site { sent = retry_event lamp_payment 7 ∷ [] })
payment_queued =
    try_initiate_payment-queues (service down) lamp_payment none down_error true quiet_site
      quiet_site (record quiet_site { sent = retry_event lamp_payment 7 ∷ [] }) refl refl refl

-- A publisher that takes only the first retry event of an order, on its exchange.
abbrev first_only :
    String → String → PaymentRetryRequestedEvent → Option String → Site → Outcome Bool × Site
first_only exchange routing_key event c w =
    if str_eq exchange "payment.retry" && event.attempts == 1
    then (service down).publish exchange routing_key event c w
    else (throw down_error, w)

try_initiate_payment-restrained_example :
    try_initiate_payment
      (record (service down) { publish = first_only })
      lamp_payment
      none
      quiet_site
    ≡ try_initiate_payment (service down) lamp_payment none quiet_site
try_initiate_payment-restrained_example =
    try_initiate_payment-restrained (service down) lamp_payment none first_only quiet_site
      (λ x u h k now v. refl)

abbrev http : HttpClient Site
http = record {
  service_name = "payment-service";
  max_retries = 1;
  internal_api_key = some "secret";
  logger = λ l m w. w;
  wait = λ n w. w;
}

abbrev timeout : Error
timeout = foreign (record { message = "timeout"; code = none; response = none })

abbrev dead_line :
    Transport Site InitiatePaymentRequest (ApiSuccessResponse InitiatePaymentResponse)
dead_line = record { send = λ r w. (throw timeout, w); fire = λ m. m }

try_initiate_payment_total_example :
    (b : Bool) × (v : Site) × (try_initiate_payment
        (service (Clients.initiate_payment http dead_line))
        lamp_payment
        none
        quiet_site
      ≡ (ok b, v))
try_initiate_payment_total_example =
    try_initiate_payment_total (service (Clients.initiate_payment http dead_line)) http dead_line
      (λ p c w. refl) lamp_payment none quiet_site

abbrev last_lamp : Product
last_lamp = record {
  product_id = "001";
  name = "Lamp";
  price = 19990;
  stock = pos 0;
  created_at = 0;
}

abbrev refusing : Transport Site StockMutation Product
refusing = record {
  send = λ r w. (throw (refused_by_stock "001" 1 last_lamp "Request failed" none), w);
  fire = λ m. m;
}

conflict_reported :
    (v : Site) × (Clients.reserve_stock http refusing "001" 1 none quiet_site
      ≡ (throw (ConflictError ("Insufficient stock for product " ++ˢ "001")), v))
conflict_reported =
    reserve_stock-conflict http refusing "001" 1 last_lamp "Request failed" none none quiet_site
      quiet_site (λ m e u failed. (u, failed)) refl

abbrev failed_update : UpdateOrderPaymentStatusRequest
failed_update = record { payment_initiated = false; order_status = failed }

abbrev failed_site : Site
failed_site = record queued { orders = lamp_order failed false ∷ [] }

update_lamp :
    update_payment_status (service down) "order-0" failed_update queued
    ≡ (ok (some (lamp_response failed)), failed_site)
unfolding update_payment_status mongo_order_repository Repository.update_payment_status
update_lamp = refl

ask_lamp :
    get_order_status (service down) "order-0" failed_site
    ≡ (ok (some (reported failed_update (lamp_order payment_pending false))), failed_site)
unfolding get_order_status mongo_order_repository Repository.find_by_order_id
ask_lamp = refl

get_order_status-update_payment_status_example :
    (before : Order) × (find (has_order_id "order-0") queued.orders ≡ some before)
    × (before.order_id ≡ "order-0")
    × (some (reported failed_update (lamp_order payment_pending false))
        ≡ some (reported failed_update before))
    × (failed_site.orders ≡ failed_site.orders)
get_order_status-update_payment_status_example =
    get_order_status-update_payment_status (service down) stored_laws refl "order-0" failed_update
      (lamp_response failed) queued failed_site failed_site failed_site
      (some (reported failed_update (lamp_order payment_pending false))) update_lamp refl ask_lamp

abbrev schemas : OrderSchemas
schemas = record {
  create_order = λ _. valid lamp_request;
  order_id_params = λ _. valid "order-0";
  update_payment_status = λ _. valid failed_update;
}

abbrev request_without_key : Request
request_without_key = record {
  correlation_id = "corr-0";
  headers = ("x-internal-api-key", "guess") ∷ [];
  params = null;
  body = null;
}

guessed_key : header internal_api_key_header request_without_key.headers ≢ some "secret"
unfolding header
guessed_key e = let same : false ≡ true = ap (Middleware.has_key "secret") e in cc

refuses_guess :
    payment_status_route
      (λ l m w. w)
      schemas
      "secret"
      (λ w. (ok next, w))
      (λ w. (ok next, w))
      (service down)
      request_without_key
      queued
    ≡ (failure 403 forbidden, queued)
refuses_guess =
    payment_status_route-refuses (λ l m w. w) schemas "secret" (λ w. (ok next, w))
      (λ w. (ok next, w)) (service down) request_without_key queued guessed_key
