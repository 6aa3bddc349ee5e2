-- ===== src/Order/Repository.antt =====
-- order-service/src/repositories: IOrderRepository.ts, and MongoOrderRepository.ts over the
-- collection of orders.
use ecommerce_microservice.Prelude.{String, Bool, Option, none, some, str_eq}
use ecommerce_microservice.Shared.Action.{Action, pure, ◌>>=◌}
use ecommerce_microservice.Shared.Dtos.{UpdateOrderPaymentStatusRequest}
use ecommerce_microservice.Mongo.{Collection}
use ecommerce_microservice.Order.Model.{Order, same_text?}

pub record OrderRepository (W : Type 0) : Type 0 where
  pub create : Order → Action W Order
  pub find_by_order_id : String → Action W (Option Order)
  pub find_by_idempotency_key : String → Action W (Option Order)
  pub update_payment_status : String → UpdateOrderPaymentStatusRequest → Action W (Option Order)

abbrev pub to_attributes : Order → Order
to_attributes doc = record {
  order_id = doc.order_id;
  customer_id = doc.customer_id;
  product_id = doc.product_id;
  amount = doc.amount;
  order_status = doc.order_status;
  payment_initiated = doc.payment_initiated;
  idempotency_key = doc.idempotency_key;
  created_at = doc.created_at;
}

abbrev pub to_attributes? : Option Order → Option Order
to_attributes? none = none
to_attributes? (some doc) = some (to_attributes doc)

-- `{ orderId }`
abbrev pub has_order_id : String → Order → Bool
has_order_id order_id o = str_eq o.order_id order_id

-- `{ idempotencyKey }`
abbrev pub has_key : String → Order → Bool
has_key key o = same_text? o.idempotency_key (some key)

-- `{ $set: update }`
abbrev pub set_status : UpdateOrderPaymentStatusRequest → Order → Order
set_status update o = record o {
  payment_initiated = update.payment_initiated;
  order_status = update.order_status;
}

module _ {W : Type 0} (orders : Collection W Order) where
  unfoldable pub create : Order → Action W Order
  create order = do doc ← orders.create order; pure (to_attributes doc)

  unfoldable pub find_by_order_id : String → Action W (Option Order)
  find_by_order_id order_id = do
    doc ← orders.find_one (has_order_id order_id)
    pure (to_attributes? doc)

  unfoldable pub find_by_idempotency_key : String → Action W (Option Order)
  find_by_idempotency_key key = do doc ← orders.find_one (has_key key); pure (to_attributes? doc)

  unfoldable pub update_payment_status :
      String → UpdateOrderPaymentStatusRequest → Action W (Option Order)
  update_payment_status order_id update = do
    doc ← orders.find_one_and_update (has_order_id order_id) (set_status update)
    pure (to_attributes? doc)

  unfoldable pub mongo_order_repository : OrderRepository W
  unfolding create find_by_order_id find_by_idempotency_key update_payment_status
  mongo_order_repository = record {
    create = create;
    find_by_order_id = find_by_order_id;
    find_by_idempotency_key = find_by_idempotency_key;
    update_payment_status = update_payment_status;
  }
