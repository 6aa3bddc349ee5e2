-- ===== src/Customer/Seed.antt =====
-- customer-service/src/scripts/seed.ts: the script that seeds the customers when the container starts.
use ecommerce_microservice.Prelude.{ℕ, String, ◌≡◌, ap, ◌∙◌, List, [], ◌∷◌, find, arith}
use ecommerce_microservice.Shared.Action.{Outcome, ok, throw, Action, effect, ◌>>◌, bind-eq-ok}
use ecommerce_microservice.Shared.Logger.{Logger, LogLevel, info, error}
use ecommerce_microservice.Mongo.{Mongoose, Collection, CollectionLaws}
use ecommerce_microservice.Mongo.Seeding.{key_is, key_in, ensure_all, seeded_lookup, seeded-find}
use ecommerce_microservice.Customer.Service.{Customer, same_customer}

-- What the schema's `createdAt` takes from the clock is `now`.
abbrev pub seed_customer : ℕ → String → String → String → Customer
seed_customer now customer_id name email = record {
  customer_id = customer_id;
  name = name;
  email = email;
  created_at = now;
}

abbrev pub seed_customers : ℕ → List Customer
seed_customers now =
    seed_customer now "001" "John Doe" "john.doe@example.com"
    ∷ seed_customer now "002" "Jane Smith" "jane.smith@example.com"
    ∷ seed_customer now "003" "Ada Lovelace" "ada.lovelace@example.com"
    ∷ []

-- The samples of an earlier version, which the script deletes.
abbrev pub retired_customers : List String
retired_customers = "cust-0001" ∷ []

module _ {W : Type 0} (mongoose : Mongoose W) (customers : Collection W Customer) (uri : String)
    (logger : Logger W) (now : ℕ) where
  unfoldable pub seed : Action W (Unit {0})
  seed = do
    mongoose.connect uri
    customers.delete_many (key_in (λ d. d.customer_id) retired_customers)
    ensure_all (λ d. d.customer_id) customers (seed_customers now)
    effect (logger info "Seed customers ensured")
    mongoose.disconnect

  -- The `.then` and the `.catch` of the script: the code that the process exits with.
  abbrev pub exit_code : Outcome (Unit {0}) × W → ℕ × W
  exit_code (ok done, w) = (0, w)
  exit_code (throw e, w) = (1, logger error "Seed failed" w)

  unfoldable pub run_script : W → ℕ × W
  run_script w = exit_code (seed w)

  exit_code-zero : (p : Outcome (Unit {0}) × W) {w : W} → exit_code p ≡ (0, w) → p ≡ (ok tt, w)
  exit_code-zero (ok done, v) h = ground arith
  exit_code-zero (throw e, v) h = absurd (omega (arith, ap (λ (q : ℕ × W). q.0) h))

  module _ {docs : W → List Customer} (laws : CollectionLaws customers same_customer docs)
      (connected : (w u : W) → mongoose.connect uri w ≡ (ok tt, u) → docs u ≡ docs w)
      (disconnected : (w u : W) → mongoose.disconnect w ≡ (ok tt, u) → docs u ≡ docs w)
      (logs : (l : LogLevel) (m : String) (w : W) → docs (logger l m w) ≡ docs w) where
    -- When the script exits with code 0, looking up an id finds the customer that was there before or,
    -- if there was none, the seed's customer with that id; of a retired id it finds only what the seed
    -- has.
    pub run_script-keeps_customers :
        (w w' : W)
        → run_script w ≡ (0, w')
        → (id : String)
        → find (key_is (λ d. d.customer_id) id) (docs w')
          ≡ seeded_lookup (λ d. d.customer_id) retired_customers (seed_customers now) id (docs w)
    unfolding run_script seed
    run_script-keeps_customers w w' h id =
        let test = key_is (λ d. d.customer_id) id in
        let (d1, u1, e1, r1) = bind-eq-ok (mongoose.connect uri w) _ (exit_code-zero (seed w) h) in
        let (d2, u2, e2, r2) =
          bind-eq-ok (customers.delete_many (key_in (λ d. d.customer_id) retired_customers) u1) _
            r1 in
        let (d3, u3, e3, r3) =
          bind-eq-ok (ensure_all (λ d. d.customer_id) customers (seed_customers now) u2) _ r2 in
        let kept = disconnected (logger info "Seed customers ensured" u3) w' r3 ∙ logs info _ u3 in
        ap (find test) kept
        ∙ seeded-find (λ d. d.customer_id) laws retired_customers (seed_customers now) u1 u2 u3 id
            e2 e3
        ∙ ap (seeded_lookup (λ d. d.customer_id) retired_customers (seed_customers now) id)
            (connected w u1 e1)
