-- ===== src/Order/NetworkTests.antt =====
-- A reservation over HTTP of which the first answer is lost: the world is the shelf of the product
-- service.
use ecommerce_microservice.Prelude.{
  ℕ, ◌+◌, ◌*◌, ◌≡◌, refl, none, some, List, [], ◌∷◌, if◌then◌else◌, arith,
}
use ecommerce_microservice.Prelude.Int.{pos, ◌+ℤ◌, ◌-ℤ◌, leb_ℤ}
use ecommerce_microservice.Shared.Action.{Outcome, ok, throw}
use ecommerce_microservice.Shared.Connection.{plain_error}
use ecommerce_microservice.Shared.HttpClient.{HttpClient, Transport}
use ecommerce_microservice.Mongo.{Collection}
use ecommerce_microservice.Mongo.Memory.{memory, memory_laws}
use ecommerce_microservice.Product.Repository
use ecommerce_microservice.Product.Model.{Product, same_product_id}
use ecommerce_microservice.Product.Repository.{ProductRepository, mongo_product_repository}
use ecommerce_microservice.Product.Service.{reserve_stock}
use ecommerce_microservice.Product.Sharing.{total_stock}
use ecommerce_microservice.Order.Clients
use ecommerce_microservice.Order.Clients.{StockMutation}
use ecommerce_microservice.Order.LostAnswers.{
  Lost, start, again, serves, attempt, reserve_stock-repeats,
}

abbrev lamps : ℕ → Product
lamps stock = record {
  product_id = "001";
  name = "Lamp";
  price = 19990;
  stock = pos stock;
  created_at = 0;
}

abbrev shelf : ℕ → List Product
shelf stock = lamps stock ∷ []

abbrev stored : Collection (List Product) Product
stored = memory same_product_id (λ ds. ds) (λ ds _. ds)

abbrev http : HttpClient (List Product)
http = record {
  service_name = "product-service";
  max_retries = 3;
  internal_api_key = some "a shared secret";
  logger = λ level message w. w;
  wait = λ n w. w;
}

-- The answer is lost while two lamps or more are left.
abbrev answer : Outcome Product × List Product → Outcome (Unit {0}) × List Product
answer (ok p, w) =
    if leb_ℤ (pos 2) p.stock then (throw (plain_error "socket hang up"), w) else (ok tt, w)
answer (throw e, w) = (throw e, w)

abbrev network : Transport (List Product) StockMutation (Unit {0})
network = record {
  send = λ r w. answer (reserve_stock (mongo_product_repository stored) "001" r.body.quantity w);
  fire = λ m. m;
}

first_served : serves http network stored "001" 1 none (shelf 3) ≡ (ok (lamps 2), shelf 2)
unfolding reserve_stock mongo_product_repository Repository.reserve_stock ◌-ℤ◌
first_served = refl

first_lost :
    attempt http network stored "001" 1 none (shelf 3)
    ≡ (throw (plain_error "socket hang up"), shelf 2)
unfolding reserve_stock mongo_product_repository Repository.reserve_stock ◌-ℤ◌
first_lost = refl

second_served : serves http network stored "001" 1 none (shelf 2) ≡ (ok (lamps 1), shelf 1)
unfolding reserve_stock mongo_product_repository Repository.reserve_stock ◌-ℤ◌
second_served = refl

second_answered : attempt http network stored "001" 1 none (shelf 2) ≡ (ok tt, shelf 1)
unfolding reserve_stock mongo_product_repository Repository.reserve_stock ◌-ℤ◌
second_answered = refl

one-Lost : Lost http network stored "001" 1 none (shelf 3) 1 (shelf 2)
one-Lost = again (lamps 2) (plain_error "socket hang up") start first_served first_lost refl

reserve_stock-repeats_example :
    (Clients.reserve_stock http network "001" 1 none (shelf 3) ≡ (ok tt, shelf 1))
    × (total_stock (shelf 1) +ℤ pos ((1 + 1) * 1) ≡ total_stock (shelf 3))
reserve_stock-repeats_example =
    reserve_stock-repeats http network stored "001" 1 none
      (memory_laws same_product_id (λ ds. ds) (λ ds _. ds) (λ ds w. refl)) (λ n w. refl) 1 (shelf 3)
      (shelf 2) (shelf 1) (lamps 1) tt (omega arith) (λ m x. refl) one-Lost second_served
      second_answered
