-- ===== src/Product/Seed.antt =====
-- product-service/src/scripts/seed.ts: the script that seeds the products when the container starts.
use ecommerce_microservice.Prelude.{ℕ, String, ◌≡◌, ap, ◌∙◌, List, [], ◌∷◌, find, arith}
use ecommerce_microservice.Shared.Action.{Outcome, ok, throw, Action, effect, ◌>>◌, bind-eq-ok}
use ecommerce_microservice.Shared.Logger.{Logger, LogLevel, info, error}
use ecommerce_microservice.Mongo.{Mongoose, Collection, CollectionLaws}
use ecommerce_microservice.Mongo.Seeding.{key_is, key_in, ensure_all, seeded_lookup, seeded-find}
use ecommerce_microservice.Prelude.Int.{pos}
use ecommerce_microservice.Product.Model.{Product, same_product_id}

-- What the schema's `createdAt` takes from the clock is `now`.
abbrev pub seed_product : ℕ → String → String → ℕ → ℕ → Product
seed_product now product_id name price stock = record {
  product_id = product_id;
  name = name;
  price = price;
  stock = pos stock;
  created_at = now;
}

abbrev pub seed_products : ℕ → List Product
seed_products now =
    seed_product now "001" "Wireless Mouse" 19990 100
    ∷ seed_product now "002" "Mechanical Keyboard" 79990 50
    ∷ seed_product now "003" "27\" Monitor" 249990 30
    ∷ []

-- The samples of an earlier version, which the script deletes.
abbrev pub retired_products : List String
retired_products = "prod-0001" ∷ "prod-0002" ∷ "prod-0003" ∷ "prod-0004" ∷ []

module _ {W : Type 0} (mongoose : Mongoose W) (products : Collection W Product) (uri : String)
    (logger : Logger W) (now : ℕ) where
  unfoldable pub seed : Action W (Unit {0})
  seed = do
    mongoose.connect uri
    products.delete_many (key_in (λ d. d.product_id) retired_products)
    ensure_all (λ d. d.product_id) products (seed_products now)
    effect (logger info "Seed products ensured")
    mongoose.disconnect

  -- The `.then` and the `.catch` of the script: the code that the process exits with.
  abbrev pub exit_code : Outcome (Unit {0}) × W → ℕ × W
  exit_code (ok done, w) = (0, w)
  exit_code (throw e, w) = (1, logger error "Seed failed" w)

  unfoldable pub run_script : W → ℕ × W
  run_script w = exit_code (seed w)

  exit_code-zero : (p : Outcome (Unit {0}) × W) {w : W} → exit_code p ≡ (0, w) → p ≡ (ok tt, w)
  exit_code-zero (ok done, v) h = ground arith
  exit_code-zero (throw e, v) h = absurd (omega (arith, ap (λ (q : ℕ × W). q.0) h))

  module _ {docs : W → List Product} (laws : CollectionLaws products same_product_id docs)
      (connected : (w u : W) → mongoose.connect uri w ≡ (ok tt, u) → docs u ≡ docs w)
      (disconnected : (w u : W) → mongoose.disconnect w ≡ (ok tt, u) → docs u ≡ docs w)
      (logs : (l : LogLevel) (m : String) (w : W) → docs (logger l m w) ≡ docs w) where
    -- When the script exits with code 0, looking up an id finds the product that was there before, its
    -- stock included, or, if there was none, the seed's product with that id; of a retired id it finds
    -- only what the seed has.
    pub run_script-keeps_stock :
        (w w' : W)
        → run_script w ≡ (0, w')
        → (id : String)
        → find (key_is (λ d. d.product_id) id) (docs w')
          ≡ seeded_lookup (λ d. d.product_id) retired_products (seed_products now) id (docs w)
    unfolding run_script seed
    run_script-keeps_stock w w' h id =
        let test = key_is (λ d. d.product_id) id in
        let (d1, u1, e1, r1) = bind-eq-ok (mongoose.connect uri w) _ (exit_code-zero (seed w) h) in
        let (d2, u2, e2, r2) =
          bind-eq-ok (products.delete_many (key_in (λ d. d.product_id) retired_products) u1) _ r1 in
        let (d3, u3, e3, r3) =
          bind-eq-ok (ensure_all (λ d. d.product_id) products (seed_products now) u2) _ r2 in
        let kept = disconnected (logger info "Seed products ensured" u3) w' r3 ∙ logs info _ u3 in
        ap (find test) kept
        ∙ seeded-find (λ d. d.product_id) laws retired_products (seed_products now) u1 u2 u3 id e2
            e3
        ∙ ap (seeded_lookup (λ d. d.product_id) retired_products (seed_products now) id)
            (connected w u1 e1)
