-- ===== src/Order/Recorded/Replay.antt =====
-- Whole requests, and the idempotency of a key.
use ecommerce_microservice.Prelude.{
  String, ◌≡◌, ap, sym, subst, inl, inr, ◌∙◌, true, Bool-cases, Option, none, some, List, arith,
  find,
}
use ecommerce_microservice.Shared.Action.{ok, settled, bind-eq-ok}
use ecommerce_microservice.Shared.Headers.{truthy}
use ecommerce_microservice.Shared.Logger.{LogLevel}
use ecommerce_microservice.Shared.Dtos.{CreateOrderRequest, CreateOrderResponse}
use ecommerce_microservice.Mongo.{Collection, CollectionLaws}
use ecommerce_microservice.Order.Model.{Order, same_order}
use ecommerce_microservice.Order.Repository.{has_key, mongo_order_repository}
use ecommerce_microservice.Order.Dependencies.{is_mismatch, OrderService, to_response, key_text}
use ecommerce_microservice.Order.Service.{
  replay_message, replay_or, warn_mismatch, checkout, create_order,
}
use ecommerce_microservice.Order.Recorded.{Bystanders, Recorded}
use ecommerce_microservice.Order.Requests.{create_order-replay}
use ecommerce_microservice.Order.Recorded.Placement.{
  throw-ne-ok, place_order-Recorded, existing_Recorded, find_key-at,
}

module _ {W : Type 0} {s : OrderService W} {orders : Collection W Order} {docs : W → List Order}
    (laws : CollectionLaws orders same_order docs) (by : Bystanders s docs)
    (stores : s.order_repo ≡ mongo_order_repository orders) where
  checkout-Recorded :
      (request : CreateOrderRequest) (c key : Option String) (r : CreateOrderResponse) (w w' : W)
      → checkout s request c key w ≡ (ok r, w')
      → Recorded key (docs w') r
  unfolding checkout
  checkout-Recorded request c key r w w' h =
      elim (settled (s.customer_client.get_customer request.customer_id c w)) [
        | inr (x, u, e) ↦ absurd (throw-ne-ok (rw e at h))
        | inl (customer, u, e) ↦
            let asked = (rw e at h) in
            elim (settled (s.product_client.get_product request.product_id c u)) [
              | inr (x, v, f) ↦ absurd (throw-ne-ok (rw f at asked))
              | inl (p, v, f) ↦
                  let priced = (rw f at asked) in
                  elim (settled (warn_mismatch s (is_mismatch request.amount p.price) v)) [
                    | inr (x, z, g) ↦ absurd (throw-ne-ok (rw g at priced))
                    | inl (done, z, g) ↦
                        place_order-Recorded laws by stores request c key p.price r z w'
                          (rw g at priced)
                  ]
            ]
      ]

  -- A request that finds its key stored is answered with that order.
  replay_or-Recorded :
      (request : CreateOrderRequest) (c key : Option String) (o : Option Order)
      (r : CreateOrderResponse) (w w' : W)
      → o ≡ find (has_key (key_text key)) (docs w)
      → replay_or s request c key o w ≡ (ok r, w')
      → Recorded key (docs w') r
  replay_or-Recorded request c key none r w w' e h = checkout-Recorded request c key r w w' h
  replay_or-Recorded request c key (some existing) r w w' e h =
      let logged = s.logger LogLevel.info replay_message w in
      let same : to_response existing ≡ r = ground arith in
      let here : logged ≡ w' = ground arith in
      let kept = sym (ap docs here) ∙ by.logs LogLevel.info replay_message w in
      subst (Recorded key (docs w')) same (
        existing_Recorded laws by stores key existing (docs w')
          (ap (find (has_key (key_text key))) kept ∙ sym e))

  -- Every answer of `createOrder`, to a new request, to a repeated one or after a lost race, is that
  -- of an order that MongoDB holds when it is given, status included; and if the request has a key
  -- that is not the empty text, the key leads to the order of the answer. Nothing but the request's own
  -- calls of the repository changes the orders while it runs: the payment, the stock calls, the
  -- publishing and all else leave them alone.
  pub create_order-Recorded :
      (request : CreateOrderRequest) (c key : Option String) (r : CreateOrderResponse) (w w' : W)
      → create_order s request c key w ≡ (ok r, w')
      → Recorded key (docs w') r
  unfolding create_order
  create_order-Recorded request c key r w w' h = elim (Bool-cases (truthy key)) [
    | inr keyless ↦ checkout-Recorded request c key r w w' (rw keyless at h)
    | inl keyed ↦
        let (o, u, called, rest) =
          bind-eq-ok (s.order_repo.find_by_idempotency_key (key_text key) w)
            (replay_or s request c key) (rw keyed at h) in
        let (found, kept) = find_key-at laws by stores (key_text key) o w u called in
        replay_or-Recorded request c key o r u w'
          (found ∙ sym (ap (find (has_key (key_text key))) kept)) rest
  ]

  -- A request that succeeded, and then one with the same key, not empty, while the orders are as the
  -- first left them: if the lookup answers, the second is answered with an order of the same id and
  -- writes no order, whatever its other contents. Nothing but a request's own calls of the repository
  -- changes the orders while it runs.
  pub create_order_idempotent :
      (first second : CreateOrderRequest) (c d key : Option String) (r : CreateOrderResponse)
      (w w' u : W)
      → truthy key ≡ true
      → create_order s first c key w ≡ (ok r, w')
      → docs u ≡ docs w'
      → (o : Option Order) (v : W)
      → s.order_repo.find_by_idempotency_key (key_text key) u ≡ (ok o, v)
      → (r' : CreateOrderResponse) × (u' : W) × (create_order s second d key u ≡ (ok r', u'))
        × (r'.order_id ≡ r.order_id)
        × (docs u' ≡ docs u)
  create_order_idempotent first second c d key r w w' u given done between o v answered =
      let recorded = create_order-Recorded first c key r w w' done in
      let (p, there, same) = recorded.keyed given in
      let (found, kept) = find_key-at laws by stores (key_text key) o u v answered in
      let is_p = found ∙ ap (find (has_key (key_text key))) between ∙ there in
      (
        to_response p,
        s.logger LogLevel.info replay_message v,
        create_order-replay s second d key p u v given (answered ∙ ap (λ q. (ok q, v)) is_p),
        same,
        by.logs LogLevel.info replay_message v ∙ kept,
      )
