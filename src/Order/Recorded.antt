-- ===== src/Order/Recorded.antt =====
-- What a request reports is what MongoDB holds: the order of the answer is a stored one, and the
-- request's key leads to it. The service runs over the collection of orders; its other
-- dependencies leave the orders alone.
pub mod Payment
pub mod Placement
pub mod Replay
use ecommerce_microservice.Prelude.{
  ℕ, String, ◌≡◌, refl, ap, sym, subst, ◌⊎◌, inl, inr, ◌∙◌, true, false, Bool, Bool-cases, Option,
  none, some, List, [], ◌∷◌, ◌++◌, arith, find, find-append_none, any, find_sound, str_eq_iff,
  str_eq_refl,
}
use ecommerce_microservice.Shared.Action.{
  Outcome, ok, throw, Action, pure, settled, bind-eq-ok, ◌>>=◌,
}
use ecommerce_microservice.Shared.Errors.{Error, is_upstream}
use ecommerce_microservice.Shared.Headers.{truthy}
use ecommerce_microservice.Shared.Logger.{LogLevel}
use ecommerce_microservice.Shared.Topology.{retry_exchange, retry_routing_key}
use ecommerce_microservice.Shared.Dtos.{
  CreateOrderRequest, CreateOrderResponse, InitiatePaymentRequest, PaymentRetryRequestedEvent,
  UpdateOrderPaymentStatusRequest,
}
use ecommerce_microservice.Mongo.{Collection, CollectionLaws, map_option}
use ecommerce_microservice.Order.Model.{Order, same_order}
use ecommerce_microservice.Order.Repository.{
  OrderRepository, has_order_id, has_key, set_status, mongo_order_repository,
}
use ecommerce_microservice.Order.Dependencies.{
  is_mismatch, OrderService, order_quantity, to_response, key_text, or_saved, payload_of, new_order,
  retry_event, pending_update, confirmed_update, is_duplicate_key,
}
use ecommerce_microservice.Order.Service.{
  degrade_message, unpublished_message, queue_for_retry, try_initiate_payment, confirm_if,
  race_message, replay_message, winner_or, winner_of, compensate_stock_release, replay_or,
  warn_mismatch, take_payment, recover, place_order, checkout, create_order,
}
use ecommerce_microservice.Order.Quiet.{Quiet, try_initiate_payment-Leaves, warn_mismatch-Leaves}
use ecommerce_microservice.Shared.Leaves.{Leaves}
use ecommerce_microservice.Order.Documents.{
  In, find_id-fresh, find_key-fresh, find-In, find-In_updated, find-set_status, find_key-set_status,
  create_row, find_key_row, update_row,
}

-- The service's dependencies but for the repository leave what `view` sees alone.
pub record Bystanders {W X : Type 0} (s : OrderService W) (view : W → X) : Type 0 where
  pub quiet : Quiet s view
  pub open quiet use *
  pub reserves :
      (id : String) (n : ℕ) (c : Option String)
      → Leaves view (s.product_client.reserve_stock id n c)
  pub releases :
      (id : String) (n : ℕ) (c : Option String)
      → Leaves view (s.product_client.release_stock id n c)

-- The answer is that of a stored order, and a key that was given leads to it.
pub record Recorded (key : Option String) (ds : List Order) (r : CreateOrderResponse) : Type 0 where
  pub order : Order
  pub stored : In order ds
  pub reported :
      let answer : CreateOrderResponse = record {
        customer_id = order.customer_id;
        order_id = order.order_id;
        product_id = order.product_id;
        order_status = order.order_status;
      } in
      answer ≡ r
  pub keyed :
      truthy key ≡ true
      → (o : Order) × (find (has_key (key_text key)) ds ≡ some o) × (o.order_id ≡ r.order_id)

-- The order with the id, and its key, are there.
pub record Written (key : Option String) (id : String) (ds : List Order) : Type 0 where
  pub order : Order
  pub found : find (has_order_id id) ds ≡ some order
  pub keyed :
      truthy key ≡ true
      → (o : Order) × (find (has_key (key_text key)) ds ≡ some o) × (o.order_id ≡ id)
