-- ===== src/Order/RemoteTests.antt =====
-- The order service and the product service in one world, the shelf of the product service, with a
-- network that loses nothing.
use ecommerce_microservice.Prelude.{
  ℕ, String, ◌≡◌, refl, none, some, List, [], ◌∷◌, str_eq, ◌==◌, if◌then◌else◌,
}
use ecommerce_microservice.Prelude.Int.{pos}
use ecommerce_microservice.Shared.Json.{Json, null, num, str}
use ecommerce_microservice.Shared.Action.{ok}
use ecommerce_microservice.Shared.Logger.{Logger}
use ecommerce_microservice.Shared.Headers.{header, correlation_id_header}
use ecommerce_microservice.Shared.Dtos.{ApiSuccessResponse}
use ecommerce_microservice.Shared.HttpClient.{HttpClient, HttpRequest, Transport, build_headers}
use ecommerce_microservice.Shared.ErrorHandler.{Reply}
use ecommerce_microservice.Shared.Network.{delivered}
use ecommerce_microservice.Shared.Middleware.{Gate, Validation, next, valid, invalid}
use ecommerce_microservice.Mongo.{Collection, CollectionLaws}
use ecommerce_microservice.Mongo.Memory.{memory, memory_laws, memory-Available}
use ecommerce_microservice.Product.Model.{Product, same_product_id}
use ecommerce_microservice.Product.Stock.{reserved_rows}
use ecommerce_microservice.Product.Routes.{ProductSchemas, Request}
use ecommerce_microservice.Order.Clients
use ecommerce_microservice.Order.Clients.{StockMutation}
use ecommerce_microservice.Order.RemoteStock.{
  StockNetwork, remote_spec, reserve_route_of, reserve_stock-refines_remote,
}

abbrev Shelf : Type 0
Shelf = List Product

abbrev lamps : ℕ → Product
lamps stock = record {
  product_id = "001";
  name = "Lamp";
  price = 19990;
  stock = pos stock;
  created_at = 0;
}

abbrev stored : Collection Shelf Product
stored = memory same_product_id (λ ds. ds) (λ ds _. ds)

abbrev stored_laws : CollectionLaws stored same_product_id (λ ds. ds)
stored_laws = memory_laws same_product_id (λ ds. ds) (λ ds _. ds) (λ ds w. refl)

abbrev silent : Logger Shelf
silent level message w = w

abbrev open_gate : Gate Shelf
open_gate w = (ok next, w)

abbrev http : HttpClient Shelf
http = record {
  service_name = "product-service";
  max_retries = 3;
  internal_api_key = some "a shared secret";
  logger = silent;
  wait = λ n w. w;
}

-- The route's pattern, at the one product of the test, and the body.
abbrev id_from : Json → Validation String
id_from (str path) = if str_eq path "/products/001/reserve" then valid "001" else invalid null
id_from _ = invalid null

abbrev quantity_from : Json → Validation ℕ
quantity_from (num q) = if q == 0 then invalid null else valid q
quantity_from _ = invalid null

abbrev schemas : ProductSchemas
schemas = record {
  get_product_params = id_from;
  list_products_query = λ _. invalid null;
  stock_mutation = quantity_from;
}

abbrev route : Request → Shelf → Reply Product × Shelf
route = reserve_route_of stored silent schemas "a shared secret" open_gate open_gate

abbrev received : HttpRequest StockMutation → Request
received r = record {
  headers = r.headers;
  params = str r.path;
  query = null;
  body = num r.body.quantity;
}

abbrev wire : Transport Shelf StockMutation (ApiSuccessResponse Product)
wire = record { send = λ r w. delivered (route (received r) w); fire = λ m. m }

wire_lem : StockNetwork wire route schemas "/reserve" "001" 2
wire_lem = record {
  arrives = received;
  closed = λ m w. refl;
  sends = λ r w e. refl;
  keeps_headers = λ r. refl;
  reads_id = λ r e. rw e;
  reads_quantity = λ r e. rw e;
}

-- One lamp is there, and two are asked for.
reserve_stock-refines_remote_example :
    (w' : Shelf) × (Clients.reserve_stock http wire "001" 2 none (lamps 1 ∷ []) ≡ (
      remote_spec "product-service"
          (header correlation_id_header (build_headers http none []))
          "001"
          2
          (lamps 1 ∷ []),
      w',
    ))
    × (w' ≡ reserved_rows "001" 2 (lamps 1 ∷ []))
reserve_stock-refines_remote_example =
    reserve_stock-refines_remote stored stored_laws
      (memory-Available same_product_id (λ ds. ds) (λ ds _. ds)) silent (λ l m u. refl) schemas
      "a shared secret" open_gate open_gate http wire "001" 2 none refl refl wire_lem (lamps 1 ∷ [])
      (lamps 1 ∷ [], refl, refl)
