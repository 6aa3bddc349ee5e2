-- ===== src/Order/PaidOnRecord.antt =====
-- order-service/src/services/OrderService.ts: what is in MongoDB when the checkout asks for a payment.
use mathlib.Core.Path.{fun_ext}
use ecommerce_microservice.Prelude.{
  ℕ, String, ◌≡◌, refl, ap, sym, ◌∙◌, inl, inr, false, Bool-cases, Option, none, some, List, find,
  find-append_none, str_eq_refl,
}
use ecommerce_microservice.Shared.Action.{ok, Action, settled, ◌>>=◌}
use ecommerce_microservice.Shared.Headers.{truthy}
use ecommerce_microservice.Shared.Dtos.{
  payment_pending, CreateOrderRequest, CreateOrderResponse, InitiatePaymentRequest,
}
use ecommerce_microservice.Mongo.{Collection, CollectionLaws, map_option}
use ecommerce_microservice.Order.Model.{Order, same_order}
use ecommerce_microservice.Order.Repository.{
  OrderRepository, has_order_id, set_status, mongo_order_repository,
}
use ecommerce_microservice.Order.Clients.{PaymentClient}
use ecommerce_microservice.Order.Dependencies.{
  OrderService, order_quantity, key_text, is_mismatch, payload_of, new_order, pending_update,
}
use ecommerce_microservice.Order.Service.{
  queue_for_retry, try_initiate_payment, take_payment, recover, compensate_stock_release,
  warn_mismatch, place_order, checkout, create_order,
}
use ecommerce_microservice.Order.Documents.{find_id-fresh, find-set_status, create_row, update_row}

-- The order that a payment is for is stored, unpaid, with the customer, the product and the amount
-- of the payment.
pub record AwaitsPayment (payload : InitiatePaymentRequest) (ds : List Order) : Type 0 where
  pub order : Order
  pub found : find (has_order_id payload.order_id) ds ≡ some order
  pub customer : order.customer_id ≡ payload.customer_id
  pub product : order.product_id ≡ payload.product_id
  pub amount : order.amount ≡ payload.amount
  pub pending : order.order_status ≡ payment_pending
  pub unpaid : order.payment_initiated ≡ false

-- Two payment clients that answer alike wherever the order awaits its payment.
abbrev pub AgreesOnStored :
    {W : Type 0} → (W → List Order) → PaymentClient W → PaymentClient W → Type 0
AgreesOnStored {W} docs p q =
    (payload : InitiatePaymentRequest) (c : Option String) (w : W)
    → AwaitsPayment payload (docs w)
    → p.initiate_payment payload c w ≡ q.initiate_payment payload c w

-- The service with another payment client.
abbrev pub with_payments : {W : Type 0} → OrderService W → PaymentClient W → OrderService W
with_payments s p = record s { payment_client = p }

recover-with_payments :
    {W : Type 0} (s : OrderService W) (p : PaymentClient W) (request : CreateOrderRequest)
    (c key : Option String)
    → recover (with_payments s p) request c key ≡ recover s request c key
unfolding recover compensate_stock_release
recover-with_payments s p request c key = refl

module _ {W : Type 0} (s : OrderService W) {orders : Collection W Order} {docs : W → List Order}
    (laws : CollectionLaws orders same_order docs)
    (stores : s.order_repo ≡ mongo_order_repository orders) (p : PaymentClient W)
    (agrees : AgreesOnStored docs p s.payment_client) where
  try_initiate_payment-stored :
      (payload : InitiatePaymentRequest) (c : Option String) (w : W)
      → AwaitsPayment payload (docs w)
      → try_initiate_payment (with_payments s p) payload c w ≡ try_initiate_payment s payload c w
  unfolding try_initiate_payment queue_for_retry
  try_initiate_payment-stored payload c w awaits = rw (agrees payload c w awaits) refl

  -- The new order, once it has the status of its first update.
  update-AwaitsPayment :
      (request : CreateOrderRequest) (key : Option String) (id : String) (amount now : ℕ)
      (r : Option Order) (w w' : W)
      → find (has_order_id id) (docs w) ≡ some (new_order request key id amount now)
      → s.order_repo.update_payment_status id pending_update w ≡ (ok r, w')
      → AwaitsPayment (payload_of request id amount) (docs w')
  unfolding mongo_order_repository
  update-AwaitsPayment request key id amount now r w w' there h =
      let called =
        ap (λ (repo : OrderRepository W). repo.update_payment_status id pending_update w) stores in
      let (_, changed) = update_row laws id pending_update r w w' (sym called ∙ h) in
      record {
        order = set_status pending_update (new_order request key id amount now);
        found =
            ap (find (has_order_id id)) changed
            ∙ find-set_status pending_update id (docs w)
            ∙ ap (map_option (set_status pending_update)) there;
        customer = refl;
        product = refl;
        amount = refl;
        pending = refl;
        unpaid = refl;
      }

  create-found :
      (o r : Order) (w w' : W)
      → s.order_repo.create o w ≡ (ok r, w')
      → find (has_order_id o.order_id) (docs w') ≡ some o
  unfolding mongo_order_repository
  create-found o r w w' h =
      let called = ap (λ (repo : OrderRepository W). repo.create o w) stores in
      let (_, added, fresh) = create_row laws o r w w' (sym called ∙ h) in
      ap (find (has_order_id o.order_id)) added
      ∙ find-append_none (has_order_id o.order_id) (docs w) o (find_id-fresh o (docs w) fresh)
      ∙ rw (str_eq_refl o.order_id)

  take_payment-stored :
      (request : CreateOrderRequest) (c key : Option String) (id : String) (amount now : ℕ)
      (saved : Order) (w : W)
      → find (has_order_id id) (docs w) ≡ some (new_order request key id amount now)
      → take_payment (with_payments s p) request c id amount saved w
        ≡ take_payment s request c id amount saved w
  unfolding take_payment
  take_payment-stored request c key id amount now saved w there =
      elim (settled (s.order_repo.update_payment_status id pending_update w)) [
        | inr (e, u, h) ↦ rw h refl
        | inl (r, u, h) ↦
            let awaits = update-AwaitsPayment request key id amount now r w u there h in
            rw (h, try_initiate_payment-stored (payload_of request id amount) c u awaits) refl
      ]

  place_order-stored :
      (request : CreateOrderRequest) (c key : Option String) (amount : ℕ) (w : W)
      → place_order (with_payments s p) request c key amount w
        ≡ place_order s request c key amount w
  unfolding place_order
  place_order-stored request c key amount w =
      elim (settled (s.product_client.reserve_stock request.product_id order_quantity c w)) [
        | inr (e, u, h) ↦ rw h refl
        | inl (done, u, h) ↦
            let (id, v) = s.uuid u in
            let (now, t) = s.now v in
            let order = new_order request key id amount now in
            elim (settled (s.order_repo.create order t)) [
              | inr (e, x, created) ↦
                  rw (h, created) (ap (λ f. f e x) (recover-with_payments s p request c key))
              | inl (saved, x, created) ↦
                  rw (h, created)
                    (take_payment-stored request c key id amount now saved x
                      (create-found order saved t x created))
            ]
      ]

  checkout-stored :
      (request : CreateOrderRequest) (c key : Option String) (w : W)
      → checkout (with_payments s p) request c key w ≡ checkout s request c key w
  unfolding checkout
  checkout-stored request c key w =
      let same = λ (amount : ℕ). fun_ext (λ (v : W). place_order-stored request c key amount v) in
      ap
        (λ (place : ℕ → Action W CreateOrderResponse).
          (s.customer_client.get_customer request.customer_id c >>= λ _.
          s.product_client.get_product request.product_id c >>= λ product.
          warn_mismatch s (is_mismatch request.amount product.price) >>= λ _. place product.price)
            w)
        (fun_ext same)

  -- No payment is asked for before its order is stored: over a repository in MongoDB, a checkout runs
  -- to the same result with any other payment client that answers alike wherever the order of the
  -- payment is stored, pending and unpaid, with the customer, the product and the amount of the payment.
  pub create_order-pays_stored :
      (request : CreateOrderRequest) (c key : Option String) (w : W)
      → create_order (with_payments s p) request c key w ≡ create_order s request c key w
  unfolding create_order
  create_order-pays_stored request c key w =
      let same = fun_ext (λ (v : W). checkout-stored request c key v) in
      elim (Bool-cases (truthy key)) [
        | inr keyless ↦ rw keyless (checkout-stored request c key w)
        | inl keyed ↦ elim (settled (s.order_repo.find_by_idempotency_key (key_text key) w)) [
          | inr (e, u, h) ↦ rw (keyed, h) refl
          | inl (none, u, h) ↦ rw (keyed, h) (checkout-stored request c key u)
          | inl (some existing, u, h) ↦ rw (keyed, h) refl
        ]
      ]
