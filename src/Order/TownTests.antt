-- ===== src/Order/TownTests.antt =====
-- The order service and the product service in one world, each with its documents, and a checkout.
use ecommerce_microservice.Prelude.{
  ℕ, String, true, ◌≡◌, refl, arith, ap, ◌∙◌, any, Bool-cases, inl, inr, none, some, List, [], ◌∷◌,
  length, str_eq, if◌then◌else◌,
}
use ecommerce_microservice.Prelude.Int.{pos, ◌+ℤ◌, ◌-ℤ◌}
use ecommerce_microservice.Shared.Json.{Json, null, num, str}
use ecommerce_microservice.Shared.Action.{ok}
use ecommerce_microservice.Shared.Logger.{Logger}
use ecommerce_microservice.Shared.Headers.{header, set_header}
use ecommerce_microservice.Shared.Dtos.{ApiSuccessResponse, CreateOrderRequest}
use ecommerce_microservice.Shared.HttpClient.{
  HttpClient, HttpRequest, Transport, call, build_headers, execute_with_retry, retry_loop,
  fire_breaker,
}
use ecommerce_microservice.Shared.ErrorHandler.{Reply, success, failure, async_handler}
use ecommerce_microservice.Shared.Network.{delivered}
use ecommerce_microservice.Shared.Leaves.{Leaves}
use ecommerce_microservice.Shared.Middleware.{
  Gate, Validation, next, valid, invalid, internal_auth, validate_request,
}
use ecommerce_microservice.Mongo.{Collection}
use ecommerce_microservice.Mongo.Memory.{memory, memory_laws, memory-Atomic, memory-Available}
use ecommerce_microservice.Product.Model.{Product, same_product_id}
use ecommerce_microservice.Product.Routes
use ecommerce_microservice.Product.Routes.{ProductSchemas, Request}
use ecommerce_microservice.Product.Service
use ecommerce_microservice.Product.Repository as Stored
use ecommerce_microservice.Product.Repository.{mongo_product_repository}
use ecommerce_microservice.Product.StockQuiet.{reserve_route-leaves, release_route-leaves}
use ecommerce_microservice.Product.Sharing.{total_stock}
use ecommerce_microservice.Order.Clients
use ecommerce_microservice.Order.Clients.{StockMutation}
use ecommerce_microservice.Order.Model.{Order, same_order}
use ecommerce_microservice.Order.Repository.{mongo_order_repository}
use ecommerce_microservice.Order.Dependencies.{OrderService}
use ecommerce_microservice.Order.Repository
use ecommerce_microservice.Order.Service.{
  create_order, checkout, place_order, take_payment, try_initiate_payment,
}
use ecommerce_microservice.Order.Quiet.{Quiet}
use ecommerce_microservice.Order.RemoteStock.{reserve_route_of}
use ecommerce_microservice.Order.RemoteTotals.{StockSite, release_route_of}
use ecommerce_microservice.Order.RemoteLedger.{OrderSite, create_order-conserves_stock}

pub record Town : Type 0 where
  pub shelf : List Product
  pub orders : List Order

abbrev shelf_of : Town → List Product
shelf_of w = w.shelf

abbrev orders_of : Town → List Order
orders_of w = w.orders

abbrev put_shelf : List Product → Town → Town
put_shelf ds w = record w { shelf = ds }

abbrev put_orders : List Order → Town → Town
put_orders ds w = record w { orders = ds }

abbrev catalogue : Collection Town Product
catalogue = memory same_product_id shelf_of put_shelf

abbrev book : Collection Town Order
book = memory same_order orders_of put_orders

abbrev silent : Logger Town
silent level message w = w

abbrev open_gate : Gate Town
open_gate w = (ok next, w)

abbrev id_from : Json → Validation String
id_from (str id) = valid id
id_from _ = invalid null

abbrev quantity_from : Json → Validation ℕ
quantity_from (num q) = valid q
quantity_from _ = invalid null

abbrev schemas : ProductSchemas
schemas = record {
  get_product_params = id_from;
  list_products_query = λ _. invalid null;
  stock_mutation = quantity_from;
}

abbrev http : HttpClient Town
http = record {
  service_name = "product-service";
  max_retries = 3;
  internal_api_key = some "a shared secret";
  logger = silent;
  wait = λ n w. w;
}

abbrev received : HttpRequest StockMutation → Request
received r = record {
  headers = r.headers;
  params = str "001";
  query = null;
  body = num r.body.quantity;
}

-- The wire knows the two paths of one product.
abbrev serve : HttpRequest StockMutation → Town → Reply Product × Town
serve r =
    if str_eq r.path "/products/001/release"
    then release_route_of catalogue silent schemas "a shared secret" open_gate open_gate
        (received r)
    else reserve_route_of catalogue silent schemas "a shared secret" open_gate open_gate
        (received r)

abbrev wire : Transport Town StockMutation (ApiSuccessResponse Product)
wire = record { send = λ r w. delivered (serve r w); fire = λ m. m }

abbrev town_service : OrderService Town
town_service = record {
  order_repo = mongo_order_repository book;
  payment_client = record {
    initiate_payment =
        λ p c w. (ok (record { payment_id = "payment-0"; order_id = p.order_id }), w);
  };
  product_client = record {
    get_product =
        λ id c w. (ok (record { product_id = id; name = "Lamp"; price = 19990; stock = pos 3 }), w);
    reserve_stock = Clients.reserve_stock http wire;
    release_stock = Clients.release_stock http wire;
  };
  customer_client = record {
    get_customer =
        λ id c w. (ok (record { customer_id = id; name = "Ada"; email = "ada@example.org" }), w);
  };
  publish = λ exchange key event c w. (ok true, w);
  logger = silent;
  uuid = λ w. ("order-0", w);
  now = λ w. (7, w);
}

town-Quiet : {X : Type 0} (view : Town → X) → Quiet town_service view
town-Quiet view = record {
  asks_customer = λ id c w. refl;
  asks_product = λ id c w. refl;
  pays = λ p c w. refl;
  publishes = λ x k e c w. refl;
  logs = λ l m w. refl;
  draws_uuid = λ w. refl;
  draws_now = λ w. refl;
}

delivered-leaves :
    {X : Type 0} (view : Town → X) (p : Reply Product × Town) → view (delivered p).1 ≡ view p.1
delivered-leaves view (success status a, w) = refl
delivered-leaves view (failure status b, w) = refl

wire-Leaves : (r : HttpRequest StockMutation) → Leaves orders_of (wire.send r)
wire-Leaves r w = elim (Bool-cases (str_eq r.path "/products/001/release")) [
  | inl release ↦ rw release (
      delivered-leaves orders_of _
      ∙ release_route-leaves orders_of catalogue (λ f w. refl) (λ f u w. refl) silent schemas
          "a shared secret" open_gate open_gate (λ l m w. refl) (λ w. refl) (received r) w)
  | inr reserve ↦ rw reserve (
      delivered-leaves orders_of _
      ∙ reserve_route-leaves orders_of catalogue (λ f w. refl) (λ f u w. refl) silent schemas
          "a shared secret" open_gate open_gate (λ l m w. refl) (λ w. refl) (received r) w)
]

create_keeps_shelf : (o : Order) → Leaves shelf_of (book.create o)
create_keeps_shelf o w = elim (Bool-cases (any (same_order o) w.orders)) [
  | inl clash ↦ rw clash refl
  | inr new ↦ rw new refl
]

town_site : StockSite shelf_of http wire "001"
town_site = record {
  products = catalogue;
  laws = memory_laws same_product_id shelf_of put_shelf (λ ds w. refl);
  up = memory-Available same_product_id shelf_of put_shelf;
  logger = silent;
  logs = λ l m u. refl;
  schemas = schemas;
  key = "a shared secret";
  read_limiter = open_gate;
  mutation_limiter = open_gate;
  open_gate = record { passes = λ w. (w, refl, refl) };
  keyed = refl;
  real = refl;
  reserving = record {
    arrives = received;
    closed = λ m w. refl;
    sends = λ r w e. rw e refl;
    keeps_headers = λ r. refl;
    reads_id = λ r e. refl;
    reads_quantity = λ r e. ap (λ (q : ℕ). valid q) e;
  };
  releasing = record {
    arrives = received;
    closed = λ m w. refl;
    sends = λ r w e. rw e refl;
    keeps_headers = λ r. refl;
    reads_id = λ r e. refl;
    reads_quantity = λ r e. ap (λ (q : ℕ). valid q) e;
  };
}

town_books : OrderSite town_service shelf_of orders_of http wire
town_books = record {
  reserves = refl;
  releases = refl;
  orders = book;
  order_laws = memory_laws same_order orders_of put_orders (λ ds w. refl);
  atomic = memory-Atomic same_order orders_of put_orders;
  unwritten = λ o w w' e h. ground arith;
  stores = refl;
  quiet_docs = town-Quiet shelf_of;
  quiet_rows = town-Quiet orders_of;
  client_logs = λ l m w. refl;
  client_waits = λ n w. refl;
  sends_keep = wire-Leaves;
  create_keeps = create_keeps_shelf;
  find_keeps = λ f w. refl;
  update_keeps = λ f u w. refl;
}

abbrev lamps : ℕ → Product
lamps stock = record {
  product_id = "001";
  name = "Lamp";
  price = 19990;
  stock = pos stock;
  created_at = 0;
}

abbrev opening : Town
opening = record { shelf = lamps 3 ∷ []; orders = [] }

abbrev lamp_request : CreateOrderRequest
lamp_request = record { customer_id = "cust-1"; product_id = "001"; amount = none }

create_order-conserves_stock_example :
    let w' = (create_order town_service lamp_request none (some "key-1") opening).1 in
    total_stock w'.shelf +ℤ pos (length w'.orders)
    ≡ total_stock opening.shelf +ℤ pos (length opening.orders)
create_order-conserves_stock_example =
    create_order-conserves_stock town_service lamp_request town_site town_books none (some "key-1")
      opening

sells_one :
    (create_order town_service lamp_request none (some "key-1") opening).1.shelf ≡ lamps 2 ∷ []
unfolding create_order mongo_order_repository checkout place_order Clients.reserve_stock call
    execute_with_retry retry_loop fire_breaker build_headers Routes.reserve_route async_handler
    internal_auth header set_header validate_request Routes.reserve_stock Service.reserve_stock
    mongo_product_repository take_payment try_initiate_payment Repository.create
    Repository.find_by_idempotency_key Repository.update_payment_status Stored.reserve_stock ◌+ℤ◌
    ◌-ℤ◌
sells_one = refl
