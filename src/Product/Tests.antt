-- ===== src/Product/Tests.antt =====
-- The product service on a shelf of two products, kept in memory.
use ecommerce_microservice.Prelude.{
  ◌≤◌, ℕ, String, ◌≡◌, ◌≢◌, refl, ap, true, false, some, List, [], ◌∷◌, All, find, update_first,
  arith,
}
use ecommerce_microservice.Prelude.Int.{pos, ◌+ℤ◌, ◌-ℤ◌}
use ecommerce_microservice.Shared.Json.{null}
use ecommerce_microservice.Shared.Errors.{NotFoundError}
use ecommerce_microservice.Shared.Action.{ok, throw}
use ecommerce_microservice.Shared.Logger.{Logger}
use ecommerce_microservice.Shared.Headers.{header, internal_api_key_header}
use ecommerce_microservice.Shared.Middleware.{has_key, Gate, next, valid}
use ecommerce_microservice.Mongo.{Mongoose, Collection, CollectionLaws}
use ecommerce_microservice.Mongo.Seeding.{key_is, ensure_all, seeded_lookup}
use ecommerce_microservice.Product.Seed.{
  seed_product, seed_products, retired_products, seed, run_script, run_script-keeps_stock,
}
use ecommerce_microservice.Mongo.Memory.{memory, memory_laws, memory-Atomic, memory-Available}
use ecommerce_microservice.Product.Repository
use ecommerce_microservice.Product.Model.{Product, same_product_id}
use ecommerce_microservice.Product.Repository.{
  ProductRepository, has_id, has_stock, take_stock, put_stock, mongo_product_repository,
}
use ecommerce_microservice.Product.Service.{insufficient_stock, reserve_stock, release_stock}
use ecommerce_microservice.Product.Stock.{
  reserve_spec, reserved_rows, release_stock-ok, reserve_stock-refines,
}
use ecommerce_microservice.Product.Sharing.{
  StockCall, reserve, release, opening, serve, IsInStock, total_stock, serve-conserves,
}
use ecommerce_microservice.Product.Routes.{
  ProductSchemas, Request, reserve_route, release_route, stock_routes-refuse,
}

abbrev product : String → ℕ → Product
product product_id stock = record {
  product_id = product_id;
  name = "Lamp";
  price = 19990;
  stock = pos stock;
  created_at = 0;
}

abbrev shelf : List Product
shelf = product "001" 3 ∷ product "002" 5 ∷ []

abbrev after_two : List Product
after_two = product "001" 1 ∷ product "002" 5 ∷ []

abbrev stored : Collection (List Product) Product
stored = memory same_product_id (λ ds. ds) (λ ds _. ds)

abbrev stored_laws : CollectionLaws stored same_product_id (λ ds. ds)
stored_laws = memory_laws same_product_id (λ ds. ds) (λ ds _. ds) (λ ds w. refl)

abbrev shop : ProductRepository (List Product)
shop = mongo_product_repository stored

reserve_two : reserve_stock shop "001" 2 shelf ≡ (ok (product "001" 1), after_two)
unfolding reserve_stock mongo_product_repository Repository.reserve_stock ◌-ℤ◌
reserve_two = refl

reserve_four :
    reserve_stock shop "001" 4 shelf ≡ (throw (insufficient_stock "001" 4 (product "001" 3)), shelf)
unfolding reserve_stock mongo_product_repository Repository.reserve_stock
    Repository.find_by_product_id
reserve_four = refl

release_two : release_stock shop "001" 2 after_two ≡ (ok (product "001" 3), shelf)
unfolding release_stock mongo_product_repository Repository.release_stock ◌+ℤ◌
release_two = refl

release_unknown : release_stock shop "009" 2 shelf ≡ (throw (NotFoundError "Product" "009"), shelf)
unfolding release_stock mongo_product_repository Repository.release_stock
release_unknown = refl

releases_two :
    (d : Product) × (find (has_id "001") after_two ≡ some d)
    × (product "001" 3 ≡ put_stock 2 d)
    × (shelf ≡ update_first (has_id "001") (put_stock 2) after_two)
releases_two = release_stock-ok stored_laws "001" 2 after_two shelf (product "001" 3) release_two

reserve_stock-refines_example :
    (w' : List Product) × (reserve_stock shop "001" 4 shelf ≡ (reserve_spec "001" 4 shelf, w'))
    × (w' ≡ reserved_rows "001" 4 shelf)
reserve_stock-refines_example =
    reserve_stock-refines stored_laws (memory-Available same_product_id (λ ds. ds) (λ ds _. ds))
      "001" 4 shelf

abbrev rush : List StockCall
rush = reserve "001" 2 ∷ reserve "001" 2 ∷ release "001" 1 ∷ reserve "001" 2 ∷ []

serve-rush : serve shop rush opening shelf ≡ (
  record { granted = 4; returned = 1; unreserved = 2; unreleased = 0 },
  product "001" 0 ∷ product "002" 5 ∷ [],
)
unfolding serve reserve_stock release_stock mongo_product_repository Repository.reserve_stock
    Repository.release_stock Repository.find_by_product_id ◌+ℤ◌ ◌-ℤ◌
serve-rush = refl

serve-conserves_example :
    let (t, w') = serve shop rush opening shelf in
    All IsInStock w'
    × (lost : ℕ) × (found : ℕ) × (lost ≤ t.unreserved)
    × (found ≤ t.unreleased)
    × (total_stock w' +ℤ (pos t.granted +ℤ pos lost)
        ≡ total_stock shelf +ℤ (pos t.returned +ℤ pos found))
serve-conserves_example =
    serve-conserves stored_laws (memory-Atomic same_product_id (λ ds. ds) (λ ds _. ds)) rush shelf
      (ground arith)

abbrev schemas : ProductSchemas
schemas = record {
  get_product_params = λ _. valid "001";
  list_products_query = λ _. valid (record { page = 1; page_size = 20 });
  stock_mutation = λ _. valid 2;
}

abbrev request_without_key : Request
request_without_key = record {
  headers = ("x-internal-api-key", "guess") ∷ [];
  params = null;
  query = null;
  body = null;
}

abbrev quiet_log : Logger (List Product)
quiet_log _ _ w = w

abbrev open_gate : Gate (List Product)
open_gate w = (ok next, w)

other_key : header internal_api_key_header request_without_key.headers ≢ some "secret"
unfolding header
other_key e = let same : false ≡ true = ap (has_key "secret") e in cc

keyless_refused :
    ((reserve_route quiet_log schemas "secret" open_gate open_gate shop request_without_key shelf).1
      ≡ shelf)
    × ((release_route quiet_log schemas "secret" open_gate open_gate shop request_without_key
          shelf).1
        ≡ shelf)
keyless_refused =
    stock_routes-refuse quiet_log schemas "secret" open_gate open_gate shop (λ ds. ds)
      request_without_key shelf other_key (λ u. refl) (λ l m u. refl)

-- A restart: a product of the seed was bought, one is missing, and a retired one is still there.
abbrev driver : Mongoose (List Product)
driver = record { connect = λ uri w. (ok tt, w); disconnect = λ w. (ok tt, w) }

abbrev restarted : List Product
restarted = product "prod-0001" 9 ∷ seed_product 7 "001" "Wireless Mouse" 19990 98 ∷ []

abbrev reseeded : List Product
reseeded =
    seed_product 7 "001" "Wireless Mouse" 19990 98
    ∷ seed_product 8 "002" "Mechanical Keyboard" 79990 50
    ∷ seed_product 8 "003" "27\" Monitor" 249990 30
    ∷ []

seeded_again : run_script driver stored "mongodb://mongo" quiet_log 8 restarted ≡ (0, reseeded)
unfolding run_script seed ensure_all
seeded_again = refl

run_script-keeps_stock_example :
    find (key_is (λ d. d.product_id) "001") reseeded
    ≡ seeded_lookup (λ d. d.product_id) retired_products (seed_products 8) "001" restarted
run_script-keeps_stock_example =
    run_script-keeps_stock driver stored "mongodb://mongo" quiet_log 8 stored_laws
      (λ w u e. ground arith) (λ w u e. ground arith) (λ l m w. refl) restarted reseeded
      seeded_again "001"
