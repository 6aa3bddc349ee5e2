-- ===== src/Product/AppTests.antt =====
-- The whole product service on a shelf of one product: a reservation without the internal key.
use ecommerce_microservice.Prelude.{
  ℕ, String, Bool, true, ◌&&◌, ◌≡◌, ◌≢◌, refl, ap, none, some, Option, List, [], ◌∷◌, str_eq,
  if◌then◌else◌,
}
use ecommerce_microservice.Prelude.Int.{pos}
use ecommerce_microservice.Shared.Json.{Json, null, str}
use ecommerce_microservice.Shared.Action.{Outcome, ok, throw}
use ecommerce_microservice.Shared.Logger.{Logger}
use ecommerce_microservice.Shared.Connection.{plain_error}
use ecommerce_microservice.Shared.Headers.{header, set_header, internal_api_key_header}
use ecommerce_microservice.Shared.ErrorHandler.{failure, async_handler}
use ecommerce_microservice.Shared.Metrics.{Registry, on_finish}
use ecommerce_microservice.Shared.Middleware.{
  Gate, next, valid, invalid, forbidden, has_key, internal_auth,
}
use ecommerce_microservice.Shared.App
use ecommerce_microservice.Shared.App.{
  HttpCall, Answer, replied, Response, correlation_id_middleware,
}
use ecommerce_microservice.Mongo.{Collection, CollectionLaws}
use ecommerce_microservice.Mongo.Memory.{memory, memory_laws}
use ecommerce_microservice.Product.Model.{Product, same_product_id}
use ecommerce_microservice.Product.Routes.{ProductSchemas, reserve_route}
use ecommerce_microservice.Product.Module.{create_product_module}
use ecommerce_microservice.Product.App.{create_routes, create_app}
use ecommerce_microservice.Product.ReadOnly.{create_app-reads_only}

abbrev Shelf : Type 0
Shelf = List Product

abbrev lamps : Product
lamps = record { product_id = "001"; name = "Lamp"; price = 19990; stock = pos 3; created_at = 0 }

abbrev stored : Collection Shelf Product
stored = memory same_product_id (λ ds. ds) (λ ds _. ds)

abbrev stored_laws : CollectionLaws stored same_product_id (λ ds. ds)
stored_laws = memory_laws same_product_id (λ ds. ds) (λ ds _. ds) (λ ds w. refl)

abbrev silent : Logger Shelf
silent level message w = w

abbrev open_gate : Gate Shelf
open_gate w = (ok next, w)

abbrev schemas : ProductSchemas
schemas = record {
  get_product_params = λ _. valid "001";
  list_products_query = λ _. invalid null;
  stock_mutation = λ _. valid 1;
}

abbrev registry : Registry Shelf
registry = record { inc = λ l w. w; metrics = λ w. (ok "", w) }

-- Express's matching, on two paths.
abbrev matches : String → String → HttpCall → Option Json
matches method pattern r =
    if str_eq method r.method
      && str_eq pattern "/products/:productId/reserve"
      && str_eq r.path "/products/001/reserve"
    then some (str "001")
    else none

abbrev json : String → Outcome Json
json text = if str_eq text "{" then throw (plain_error "Unexpected end of JSON input") else ok null

abbrev uuid : Shelf → String × Shelf
uuid w = ("corr-1", w)

abbrev clock : Shelf → ℕ × Shelf
clock w = (7, w)

abbrev is_connected : Shelf → Bool
is_connected w = true

abbrev intruder : HttpCall
intruder = record {
  method = "PATCH";
  path = "/products/001/reserve";
  original_url = "/products/001/reserve";
  headers = (internal_api_key_header, "guess") ∷ [];
  query = null;
  content = "";
}

other_key : header internal_api_key_header intruder.headers ≢ some "a shared secret"
unfolding header
other_key e =
    let same : str_eq "guess" "a shared secret" ≡ true = ap (λ o. has_key "a shared secret" o) e in
    cc

intruder_refused :
    create_app silent schemas "a shared secret" open_gate open_gate stored registry is_connected
      clock matches
      (λ hs. hs)
      json
      uuid
      intruder
      (lamps ∷ [])
    ≡ (
      some (record {
        headers = ("x-correlation-id", "corr-1") ∷ [];
        answer = replied (failure 403 forbidden);
      }),
      lamps ∷ [],
    )
unfolding create_app App.create_app create_routes create_product_module reserve_route async_handler
    internal_auth header set_header correlation_id_middleware on_finish
intruder_refused = refl

create_app-reads_only_example :
    (create_app silent schemas "a shared secret" open_gate open_gate stored registry is_connected
      clock matches
      (λ hs. hs)
      json
      uuid
      intruder
      (lamps ∷ [])).1
    ≡ lamps ∷ []
create_app-reads_only_example =
    create_app-reads_only stored stored_laws silent schemas "a shared secret" open_gate open_gate
      (λ l m w. refl) (λ w. refl) (λ w. refl) matches (λ hs. hs) json uuid clock registry
      is_connected (λ w. refl) (λ w. refl) (λ l w. refl) (λ w. refl) intruder (lamps ∷ []) other_key
