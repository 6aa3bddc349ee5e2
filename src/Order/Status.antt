-- ===== src/Order/Status.antt =====
-- The status of an order: what the retry worker sets through PATCH /orders/:orderId/payment-status is
-- what GET /orders/:orderId/status reports.
use ecommerce_microservice.Prelude.{
  String, ◌≡◌, sym, ap, ◌∙◌, Option, some, List, find, find_sound, update_first, str_eq_iff, arith,
}
use ecommerce_microservice.Shared.Action.{ok, bind-eq-ok, ok-eq}
use ecommerce_microservice.Shared.Dtos.{
  CreateOrderResponse, OrderStatusResponse, UpdateOrderPaymentStatusRequest,
}
use ecommerce_microservice.Mongo.{Collection, CollectionLaws, map_option, map_option-eq-some}
use ecommerce_microservice.Order.Model.{Order, same_order}
use ecommerce_microservice.Order.Repository.{
  OrderRepository, has_order_id, set_status, mongo_order_repository,
}
use ecommerce_microservice.Order.Dependencies.{OrderService, to_response, to_status_response}
use ecommerce_microservice.Order.Service.{update_payment_status, get_order_status}
use ecommerce_microservice.Order.Documents.{find-set_status, find_id_row, update_row}

-- The answer of a status request after an update.
abbrev pub reported : UpdateOrderPaymentStatusRequest → Order → OrderStatusResponse
reported update before = record {
  order_id = before.order_id;
  customer_id = before.customer_id;
  product_id = before.product_id;
  order_status = update.order_status;
  payment_initiated = update.payment_initiated;
}

module _ {W : Type 0} (s : OrderService W) {orders : Collection W Order} {docs : W → List Order}
    (laws : CollectionLaws orders same_order docs)
    (stores : s.order_repo ≡ mongo_order_repository orders) where
  update_at :
      (id : String) (update : UpdateOrderPaymentStatusRequest) (o : Option Order) (w w' : W)
      → s.order_repo.update_payment_status id update w ≡ (ok o, w')
      → (o ≡ map_option (set_status update) (find (has_order_id id) (docs w)))
        × (docs w' ≡ update_first (has_order_id id) (set_status update) (docs w))
  unfolding mongo_order_repository
  update_at id update o w w' h =
      update_row laws id update o w w'
        (sym (ap (λ (repo : OrderRepository W). repo.update_payment_status id update w) stores) ∙ h)

  find_at :
      (id : String) (o : Option Order) (w w' : W)
      → s.order_repo.find_by_order_id id w ≡ (ok o, w')
      → (o ≡ find (has_order_id id) (docs w)) × (docs w' ≡ docs w)
  unfolding mongo_order_repository
  find_at id o w w' h =
      find_id_row laws id o w w'
        (sym (ap (λ (repo : OrderRepository W). repo.find_by_order_id id w) stores) ∙ h)

  -- An update that finds its order, and then a status request while the orders are as the update
  -- left them: the answer has the id, the status and the payment flag of the update, and the
  -- customer and the product of the order from before.
  pub get_order_status-update_payment_status :
      (id : String) (update : UpdateOrderPaymentStatusRequest) (r : CreateOrderResponse)
      (w w' u u' : W) (q : Option OrderStatusResponse)
      → update_payment_status s id update w ≡ (ok (some r), w')
      → docs u ≡ docs w'
      → get_order_status s id u ≡ (ok q, u')
      → (before : Order) × (find (has_order_id id) (docs w) ≡ some before)
        × (before.order_id ≡ id)
        × (q ≡ some (reported update before))
        × (docs u' ≡ docs w')
  unfolding update_payment_status get_order_status
  get_order_status-update_payment_status id update r w w' u u' q updated between asked =
      let (o, v, called, rest) =
        bind-eq-ok (s.order_repo.update_payment_status id update w) _ updated in
      let (answer, world) = ok-eq rest in
      let (p, is_p, same) = map_option-eq-some to_response o answer in
      let (found, changed) = update_at id update o w v called in
      let (before, there, set) =
        map_option-eq-some (set_status update) (find (has_order_id id) (docs w))
          (sym found ∙ is_p) in
      let (a, z, read, last) = bind-eq-ok (s.order_repo.find_by_order_id id u) _ asked in
      let (reply, end_world) = ok-eq last in
      let (seen, kept) = find_at id a u z read in
      let test = has_order_id id in
      let rows = between ∙ sym (ap docs world) ∙ changed in
      let after : a ≡ some (set_status update before) =
        seen
        ∙ ap (find test) rows
        ∙ find-set_status update id (docs w)
        ∙ ap (map_option (set_status update)) there in
      let sound = find_sound test (docs w) there in
      (
        before,
        there,
        ground (arith, str_eq_iff before.order_id id),
        sym reply ∙ ap (map_option to_status_response) after,
        sym (ap docs end_world) ∙ kept ∙ between,
      )
