-- ===== src/Order/Tests/World.antt =====
-- An order service with its orders in memory, a product service that keeps a count and a broker that
-- keeps a list: the world of the tests.
use ecommerce_microservice.Prelude.{
  ℕ, zero, suc, ◌+◌, ◌-◌, ◌≤◌, String, ◌≡◌, refl, ap, true, Bool-cases, inl, inr, Option, none,
  List, [], ◌∷◌, arith, any, length, length-append, length-update_first,
}
use ecommerce_microservice.Prelude.Int.{pos, ◌-ℤ◌, int_laws}
use ecommerce_microservice.Shared.Errors.{Error, UpstreamServiceError}
use ecommerce_microservice.Shared.Action.{ok, throw, Action}
use ecommerce_microservice.Shared.Dtos.{
  CreateOrderRequest, InitiatePaymentRequest, InitiatePaymentResponse, PaymentRetryRequestedEvent,
}
use ecommerce_microservice.Mongo.{Collection, CollectionLaws}
use ecommerce_microservice.Mongo.Memory.{memory, memory_laws}
use ecommerce_microservice.Order.Repository
use ecommerce_microservice.Order.Model.{Order, same_order}
use ecommerce_microservice.Order.Repository.{
  OrderRepository, has_order_id, set_status, mongo_order_repository,
}
use ecommerce_microservice.Order.Dependencies.{OrderService}
use ecommerce_microservice.Order.Ledger.{Counts, LedgerLaws, after_create}
use ecommerce_microservice.Order.Recorded.{Bystanders}

pub record Site : Type 0 where
  pub orders : List Order
  pub held : ℕ
  pub minted : ℕ
  pub sent : List PaymentRetryRequestedEvent

abbrev pub quiet_site : Site
quiet_site = record { orders = []; held = 0; minted = 0; sent = [] }

abbrev pub put_orders : List Order → Site → Site
put_orders ds w = record w { orders = ds }

abbrev pub stored : Collection Site Order
stored = memory same_order (λ w. w.orders) put_orders

abbrev pub stored_laws : CollectionLaws stored same_order (λ w. w.orders)
stored_laws = memory_laws same_order (λ w. w.orders) put_orders (λ ds w. refl)

abbrev pub site_repo : OrderRepository Site
site_repo = mongo_order_repository stored

abbrev pub id_of : ℕ → String
id_of zero = "order-0"
id_of (suc n) = "order-1"

abbrev pub mint : Site → String × Site
mint w = (id_of w.minted, record w { minted = w.minted + 1 })

-- The service with a payment client of one's choice.
abbrev pub service :
    (InitiatePaymentRequest → Option String → Action Site InitiatePaymentResponse)
    → OrderService Site
service pay = record {
  order_repo = site_repo;
  payment_client = record { initiate_payment = pay };
  product_client = record {
    get_product =
        λ id c w. (ok (record { product_id = id; name = "Lamp"; price = 19990; stock = pos 3 }), w);
    reserve_stock = λ id n c w. (ok tt, record w { held = w.held + n });
    release_stock = λ id n c w. (ok tt, record w { held = w.held - n });
  };
  customer_client = record {
    get_customer =
        λ id c w. (ok (record { customer_id = id; name = "Ada"; email = "ada@example.org" }), w);
  };
  publish = λ exchange key event c w. (ok true, record w { sent = event ∷ w.sent });
  logger = λ level message w. w;
  uuid = mint;
  now = λ w. (7, w);
}

abbrev pub paid : InitiatePaymentRequest → Option String → Action Site InitiatePaymentResponse
paid p c w = (ok (record { payment_id = "payment-0"; order_id = p.order_id }), w)

abbrev pub down_error : Error
down_error = UpstreamServiceError "payment-service" "timeout" none

abbrev pub down : InitiatePaymentRequest → Option String → Action Site InitiatePaymentResponse
down p c w = (throw down_error, w)

abbrev pub lamp_request : CreateOrderRequest
lamp_request = record { customer_id = "cust-1"; product_id = "001"; amount = none }

abbrev pub counts : Site → Counts
counts w = record { stock = pos 0 -ℤ pos w.held; orders = length w.orders }

creates_one :
    (o : Order) (w : Site)
    → let (r, w') = site_repo.create o w in counts w' ≡ after_create r (counts w)
unfolding mongo_order_repository Repository.create
creates_one o w = elim (Bool-cases (any (same_order o) w.orders)) [
  | inl clash ↦ rw clash refl
  | inr new ↦ rw new (
      ap (λ n. record { stock = pos 0 -ℤ pos w.held; orders = n })
        (length-append w.orders (o ∷ [])))
]

-- A unit is held.
abbrev pub Holds : Site → Type 0
Holds w = 1 ≤ w.held

create-held : (o : Order) (w : Site) → (site_repo.create o w).1.held ≡ w.held
unfolding mongo_order_repository Repository.create
create-held o w = elim (Bool-cases (any (same_order o) w.orders)) [
  | inl clash ↦ rw clash refl
  | inr new ↦ rw new refl
]

pub service-LedgerLaws : LedgerLaws (service paid) "001" counts Holds
unfolding mongo_order_repository Repository.find_by_idempotency_key Repository.update_payment_status
service-LedgerLaws = record {
  quiet = record {
    asks_customer = λ id c w. refl;
    asks_product = λ id c w. refl;
    pays = λ p c w. refl;
    publishes = λ x k e c w. refl;
    logs = λ l m w. refl;
    draws_uuid = λ w. refl;
    draws_now = λ w. refl;
  };
  reserves = λ c w.
      (ap (λ z. record { stock = z; orders = length w.orders }) (omega int_laws), omega arith);
  releases = λ c w enough. (
    record w { held = w.held - 1 },
    refl,
    ap (λ z. record { stock = z; orders = length w.orders }) (omega int_laws),
  );
  creates = creates_one;
  finds_key = λ k w. refl;
  updates = λ id u w.
      ap (λ n. record { stock = pos 0 -ℤ pos w.held; orders = n })
        (length-update_first (has_order_id id) (set_status u) w.orders);
  known_after_uuid = λ w known. known;
  known_after_now = λ w known. known;
  known_after_create = λ o w known. rw (create-held o w) known;
}

pub service-Bystanders :
    (pay : InitiatePaymentRequest → Option String → Action Site InitiatePaymentResponse)
    → ((p : InitiatePaymentRequest) (c : Option String) (w : Site)
        → (pay p c w).1.orders ≡ w.orders)
    → Bystanders (service pay) (λ w. w.orders)
service-Bystanders pay pays = record {
  quiet = record {
    asks_customer = λ id c w. refl;
    asks_product = λ id c w. refl;
    pays = pays;
    publishes = λ x k e c w. refl;
    logs = λ l m w. refl;
    draws_uuid = λ w. refl;
    draws_now = λ w. refl;
  };
  reserves = λ id n c w. refl;
  releases = λ id n c w. refl;
}
