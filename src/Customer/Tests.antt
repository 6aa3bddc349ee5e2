-- ===== src/Customer/Tests.antt =====
-- The customer service on a directory in memory.
use ecommerce_microservice.Prelude.{String, ◌≡◌, refl, str_eq, if◌then◌else◌, List, [], ◌∷◌}
use ecommerce_microservice.Shared.Action.{ok}
use ecommerce_microservice.Mongo.{Collection}
use ecommerce_microservice.Mongo.Memory.{memory, memory_laws, memory-Available}
use ecommerce_microservice.Customer.Service.{
  Customer, same_customer, create, mongo_customer_repository, get_customer_by_id, create_customer,
}
use ecommerce_microservice.Customer.Directory.{get_customer_by_id-create_customer}

abbrev stored : Collection (List Customer) Customer
stored = memory same_customer (λ cs. cs) (λ cs _. cs)

abbrev customer : String → String → Customer
customer id email = record { customer_id = id; name = "Ada"; email = email; created_at = 0 }

abbrev ada : Customer
ada = customer "cust-1" "ada@example.org"

-- What was typed in, and a setter that knows it.
abbrev ada_typed : Customer
ada_typed = customer "cust-1" " Ada@Example.org"

abbrev setter : String → String
setter s = if str_eq s " Ada@Example.org" then "ada@example.org" else s

abbrev others : List Customer
others = customer "cust-2" "bob@example.org" ∷ []

abbrev all_customers : List Customer
all_customers = customer "cust-2" "bob@example.org" ∷ ada ∷ []

create_ada :
    create_customer (mongo_customer_repository stored setter) ada_typed others
    ≡ (ok ada, all_customers)
unfolding create_customer mongo_customer_repository create
create_ada = refl

get_customer_by_id-create_customer_example :
    (u' : List Customer) × (get_customer_by_id
        (mongo_customer_repository stored setter)
        "cust-1"
        all_customers
      ≡ (ok (record ada_typed { email = setter ada_typed.email }), u'))
    × (ada ≡ record ada_typed { email = setter ada_typed.email })
    × (u' ≡ all_customers)
get_customer_by_id-create_customer_example =
    get_customer_by_id-create_customer
      (memory_laws same_customer (λ cs. cs) (λ cs _. cs) (λ cs w. refl))
      (memory-Available same_customer (λ cs. cs) (λ cs _. cs)) setter ada_typed ada others
      all_customers all_customers create_ada refl
