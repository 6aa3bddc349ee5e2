-- ===== src/Order/Confirmed.antt =====
-- What stands behind an answer with the status confirmed: a payment of the product service's price that the
-- payment service accepted.
use ecommerce_microservice.Prelude.{
  ℕ, String, ◌≡◌, sym, ap, subst, ◌∙◌, inl, inr, false, Option, List,
}
use ecommerce_microservice.Shared.Errors.{Error}
use ecommerce_microservice.Shared.Action.{ok, settled, bind-eq-ok}
use ecommerce_microservice.Shared.Headers.{truthy}
use ecommerce_microservice.Shared.Dtos.{confirmed, CreateOrderRequest, CreateOrderResponse}
use ecommerce_microservice.Mongo.{Collection, CollectionLaws}
use ecommerce_microservice.Order.Model.{Order, same_order}
use ecommerce_microservice.Order.Repository.{OrderRepository, mongo_order_repository}
use ecommerce_microservice.Order.Clients.{CustomerInfo, ProductInfo}
use ecommerce_microservice.Order.Dependencies.{
  OrderService, order_quantity, is_duplicate_key, is_mismatch, new_order, payload_of,
}
use ecommerce_microservice.Order.Service.{
  recover, winner_of, compensate_stock_release, warn_mismatch, place_order, checkout, create_order,
}
use ecommerce_microservice.Order.Documents.{create_row}
use ecommerce_microservice.Order.Accepted.{Ended, take_payment-Accepted}

module _ {W : Type 0} (s : OrderService W) {orders : Collection W Order} {docs : W → List Order}
    (laws : CollectionLaws orders same_order docs)
    (stores : s.order_repo ≡ mongo_order_repository orders) where
  -- A run from `w` to `w'`: the customer was found, the product service named the price, a payment of it
  -- was accepted and the order was marked as confirmed right after it.
  abbrev pub Priced : CreateOrderRequest → Option String → String → W → W → Type 0
  Priced request c order_id w w' =
      (customer : CustomerInfo) × (product : ProductInfo) × (u : W) × (v : W)
      × (s.customer_client.get_customer request.customer_id c w ≡ (ok customer, u))
      × (s.product_client.get_product request.product_id c u ≡ (ok product, v))
      × Ended s laws stores (payload_of request order_id product.price) c w'

  recover-keyless :
      (request : CreateOrderRequest) (c key : Option String) (err : Error) (r : CreateOrderResponse)
      (w w' : W)
      → truthy key ≡ false
      → ¬ (recover s request c key err w ≡ (ok r, w'))
  unfolding recover
  recover-keyless request c key err r w w' keyless h =
      let (done, u, called, rest) =
        bind-eq-ok (compensate_stock_release s request.product_id c w)
          (λ _. winner_of s (is_duplicate_key key err) key err) h in
      let bad = (rw keyless at rest) in cc

  created_as : (o r : Order) (w w' : W) → s.order_repo.create o w ≡ (ok r, w') → r ≡ o
  unfolding mongo_order_repository
  created_as o r w w' h =
      let called = ap (λ (repo : OrderRepository W). repo.create o w) stores in
      (create_row laws o r w w' (sym called ∙ h)).0

  place_order-Accepted :
      (request : CreateOrderRequest) (c key : Option String) (amount : ℕ) (r : CreateOrderResponse)
      (w w' : W)
      → truthy key ≡ false
      → place_order s request c key amount w ≡ (ok r, w')
      → r.order_status ≡ confirmed
      → Ended s laws stores (payload_of request r.order_id amount) c w'
  unfolding place_order
  place_order-Accepted request c key amount r w w' keyless h is_confirmed =
      elim (settled (s.product_client.reserve_stock request.product_id order_quantity c w)) [
        | inr (x, u, e) ↦ absurd (let bad = (rw e at h) in cc)
        | inl (done, u, e) ↦
            let (id, v) = s.uuid u in
            let (now, t) = s.now v in
            let order = new_order request key id amount now in
            let run = (rw e at h) in
            elim (settled (s.order_repo.create order t)) [
              | inr (x, z, f) ↦
                  absurd (recover-keyless request c key x r z w' keyless (rw f at run))
              | inl (saved, z, f) ↦
                  let same = created_as order saved t z f in
                  let (accepted, named) =
                    take_payment-Accepted s laws stores request c id amount saved r z w'
                      (rw f at run) (ap (λ (o : Order). o.order_id) same)
                      (ap (λ (o : Order). o.order_status) same) is_confirmed in
                  subst (λ n. Ended s laws stores (payload_of request n amount) c w') (sym named)
                    accepted
            ]
      ]

  pub create_order-Priced :
      (request : CreateOrderRequest) (c key : Option String) (r : CreateOrderResponse) (w w' : W)
      → truthy key ≡ false
      → create_order s request c key w ≡ (ok r, w')
      → r.order_status ≡ confirmed
      → Priced request c r.order_id w w'
  unfolding create_order checkout
  create_order-Priced request c key r w w' keyless h is_confirmed =
      let run : checkout s request c key w ≡ (ok r, w') = (rw keyless at h) in
      let (customer, u1, asked, h1) =
        bind-eq-ok (s.customer_client.get_customer request.customer_id c w) _ run in
      let (product, u2, priced, h2) =
        bind-eq-ok (s.product_client.get_product request.product_id c u1) _ h1 in
      let (done, u3, warned, h3) =
        bind-eq-ok (warn_mismatch s (is_mismatch request.amount product.price) u2) _ h2 in
      (
        customer,
        product,
        u1,
        u2,
        asked,
        priced,
        place_order-Accepted request c key product.price r u3 w' keyless h3 is_confirmed,
      )
