-- ===== src/Customer/Service.antt =====
-- customer-service/src: models/Customer.ts, repositories/MongoCustomerRepository.ts over the
-- collection of customers, services/CustomerService.ts and controllers/CustomerController.ts.
use ecommerce_microservice.Prelude.{ℕ, String, Bool, ◌||◌, Option, none, some, str_eq}
use ecommerce_microservice.Shared.Errors.{NotFoundError}
use ecommerce_microservice.Shared.Action.{Action, pure, raise, ◌>>=◌}
use ecommerce_microservice.Shared.ErrorHandler.{Reply, success}
use ecommerce_microservice.Mongo.{Collection}

-- CustomerAttributes
pub record Customer : Type 0 where
  pub customer_id : String
  pub name : String
  pub email : String
  pub created_at : ℕ

-- The unique indexes of the schema, on the id and on the e-mail address.
abbrev pub same_customer : Customer → Customer → Bool
same_customer c d = str_eq c.customer_id d.customer_id || str_eq c.email d.email

-- ICustomerRepository
pub record CustomerRepository (W : Type 0) : Type 0 where
  pub find_by_customer_id : String → Action W (Option Customer)
  pub create : Customer → Action W Customer

abbrev pub to_attributes : Customer → Customer
to_attributes doc = record {
  customer_id = doc.customer_id;
  name = doc.name;
  email = doc.email;
  created_at = doc.created_at;
}

abbrev pub to_attributes? : Option Customer → Option Customer
to_attributes? none = none
to_attributes? (some doc) = some (to_attributes doc)

-- `{ customerId }`
abbrev pub has_customer_id : String → Customer → Bool
has_customer_id customer_id c = str_eq c.customer_id customer_id

-- What the schema's `lowercase` and `trim` make of a document that is created: `setter` is their function
-- on texts.
abbrev pub stored_as : (String → String) → Customer → Customer
stored_as setter c = record c { email = setter c.email }

module _ {W : Type 0} (customers : Collection W Customer) (setter : String → String) where
  unfoldable pub find_by_customer_id : String → Action W (Option Customer)
  find_by_customer_id customer_id = do
    doc ← customers.find_one (has_customer_id customer_id)
    pure (to_attributes? doc)

  unfoldable pub create : Customer → Action W Customer
  create customer = do doc ← customers.create (stored_as setter customer); pure (to_attributes doc)

  unfoldable pub mongo_customer_repository : CustomerRepository W
  unfolding find_by_customer_id create
  mongo_customer_repository = record { find_by_customer_id = find_by_customer_id; create = create }

module _ {W : Type 0} where
  abbrev pub or_not_found : String → Option Customer → Action W Customer
  or_not_found customer_id none = raise (NotFoundError "Customer" customer_id)
  or_not_found customer_id (some c) = pure c

module _ {W : Type 0} (repo : CustomerRepository W) where
  unfoldable pub get_customer_by_id : String → Action W Customer
  get_customer_by_id customer_id = do
    customer ← repo.find_by_customer_id customer_id
    or_not_found customer_id customer

  unfoldable pub create_customer : Customer → Action W Customer
  create_customer customer = repo.create customer

  unfoldable pub get_customer : String → Action W (Reply Customer)
  get_customer customer_id = do
    customer ← get_customer_by_id customer_id
    pure (success 200 customer)
