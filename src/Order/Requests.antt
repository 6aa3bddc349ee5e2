-- ===== src/Order/Requests.antt =====
-- How a request runs up to the reservation, and the branches that end it early.
use ecommerce_microservice.Prelude.{
  ℕ, String, ◌≡◌, refl, ap, Bool, Bool-cases, ◌⊎◌, inl, inr, ◌∙◌, true, false, Option, none, some,
}
use ecommerce_microservice.Shared.Errors.{Error}
use ecommerce_microservice.Shared.Action.{ok, throw, settled}
use ecommerce_microservice.Shared.Logger.{LogLevel}
use ecommerce_microservice.Shared.Headers.{truthy}
use ecommerce_microservice.Shared.Dtos.{CreateOrderRequest}
use ecommerce_microservice.Order.Model.{Order}
use ecommerce_microservice.Order.Clients.{CustomerInfo, ProductInfo}
use ecommerce_microservice.Order.Dependencies.{
  OrderService, order_quantity, to_response, key_text, is_mismatch,
}
use ecommerce_microservice.Order.Service.{
  warn_mismatch, place_order, checkout, create_order, replay_message, replay_or, mismatch_message,
  take_payment, recover,
}

module _ {W : Type 0} (s : OrderService W) (request : CreateOrderRequest)
    (correlation_id key : Option String) where
  -- A repeated request, known by its key, is answered with the order that is there. The world has
  -- seen the lookup and a log line: no customer, product, stock, order or payment call is made.
  pub create_order-replay :
      (existing : Order) (w w' : W)
      → truthy key ≡ true
      → s.order_repo.find_by_idempotency_key (key_text key) w ≡ (ok (some existing), w')
      → create_order s request correlation_id key w
        ≡ (ok (to_response existing), s.logger LogLevel.info replay_message w')
  unfolding create_order
  create_order-replay existing w w' given found = rw (given, found)

  -- The request is new and its customer and product are known: the run from `w` comes to the
  -- reservation in the world `u`, with the product's price.
  pub record Reaches (w : W) (price : ℕ) (u : W) : Type 0 where
    pub looked : W
    pub fresh :
        ((truthy key ≡ false) × (looked ≡ w))
        ⊎ ((truthy key ≡ true)
            × (s.order_repo.find_by_idempotency_key (key_text key) w ≡ (ok none, looked)))
    pub customer : CustomerInfo
    pub asked : W
    pub customer_known :
        s.customer_client.get_customer request.customer_id correlation_id looked
        ≡ (ok customer, asked)
    pub product : ProductInfo
    pub priced : W
    pub product_known :
        s.product_client.get_product request.product_id correlation_id asked ≡ (ok product, priced)
    pub price_is : product.price ≡ price
    pub warned : warn_mismatch s (is_mismatch request.amount product.price) priced ≡ (ok tt, u)

  checkout-place :
      (looked asked priced u : W) (customer : CustomerInfo) (product : ProductInfo)
      → s.customer_client.get_customer request.customer_id correlation_id looked
        ≡ (ok customer, asked)
      → s.product_client.get_product request.product_id correlation_id asked ≡ (ok product, priced)
      → warn_mismatch s (is_mismatch request.amount product.price) priced ≡ (ok tt, u)
      → checkout s request correlation_id key looked
        ≡ place_order s request correlation_id key product.price u
  unfolding checkout
  checkout-place looked asked priced u customer product c p m = rw (c, p, m)

  pub create_order-place :
      {w u : W} {price : ℕ}
      → Reaches w price u
      → create_order s request correlation_id key w
        ≡ place_order s request correlation_id key price u
  unfolding create_order
  create_order-place {w} {u} {price} r =
      let placed =
        checkout-place r.looked r.asked r.priced u r.customer r.product r.customer_known
          r.product_known r.warned
        ∙ ap (λ p. place_order s request correlation_id key p u) r.price_is in
      elim r.fresh [
        | inl (keyless, same) ↦ rw (keyless, ← same) placed
        | inr (keyed, missing) ↦ rw (keyed, missing) placed
      ]

  -- A reservation that is refused ends the request with its error, and in its world: no order is
  -- written, nothing is released, no payment is tried and nothing is published.
  pub create_order-unreserved :
      {w u : W} {price : ℕ} (e : Error) (v : W)
      → Reaches w price u
      → s.product_client.reserve_stock request.product_id order_quantity correlation_id u
        ≡ (throw e, v)
      → create_order s request correlation_id key w ≡ (throw e, v)
  unfolding place_order
  create_order-unreserved e v r refused = create_order-place r ∙ rw refused

-- The client's amount plays no part in the order, its price or its payment.
module _ {W : Type 0} (s : OrderService W) (request : CreateOrderRequest)
    (correlation_id key : Option String)
    (silent : (level : LogLevel) (message : String) (w : W) → s.logger level message w ≡ w)
    (a b : Option ℕ) where
  place_order-amount :
      (price : ℕ) (w : W)
      → place_order s (record request { amount = a }) correlation_id key price w
        ≡ place_order s (record request { amount = b }) correlation_id key price w
  unfolding place_order take_payment recover
  place_order-amount price w = refl

  warn_mismatch-silent : (m : Bool) (w : W) → warn_mismatch s m w ≡ (ok tt, w)
  warn_mismatch-silent true w = ap (λ v. (ok tt, v)) (silent LogLevel.warn mismatch_message w)
  warn_mismatch-silent false w = refl

  checkout-amount :
      (w : W)
      → checkout s (record request { amount = a }) correlation_id key w
        ≡ checkout s (record request { amount = b }) correlation_id key w
  unfolding checkout
  checkout-amount w =
      elim (settled (s.customer_client.get_customer request.customer_id correlation_id w)) [
        | inr (e, u, refused) ↦ rw refused
        | inl (c, u, known) ↦
            elim (settled (s.product_client.get_product request.product_id correlation_id u)) [
              | inr (e, v, refused) ↦ rw (known, refused)
              | inl (p, v, priced) ↦
                  rw
                    (
                      known,
                      priced,
                      warn_mismatch-silent (is_mismatch a p.price) v,
                      warn_mismatch-silent (is_mismatch b p.price) v,
                    )
                    (place_order-amount p.price v)
            ]
      ]

  replayed :
      (found : Option Order) (w : W)
      → replay_or s (record request { amount = a }) correlation_id key found w
        ≡ replay_or s (record request { amount = b }) correlation_id key found w
  replayed none w = checkout-amount w
  replayed (some existing) w = refl

  -- Two requests that differ in the client's amount alone have the same outcome and leave the same
  -- world, if log lines do nothing: the price comes from the product service.
  pub create_order-amount_ignored :
      (w : W)
      → create_order s (record request { amount = a }) correlation_id key w
        ≡ create_order s (record request { amount = b }) correlation_id key w
  unfolding create_order
  create_order-amount_ignored w = elim (Bool-cases (truthy key)) [
    | inr keyless ↦ rw keyless (checkout-amount w)
    | inl keyed ↦ elim (settled (s.order_repo.find_by_idempotency_key (key_text key) w)) [
      | inr (e, u, refused) ↦ rw (keyed, refused)
      | inl (found, u, answered) ↦ rw (keyed, answered) (replayed found u)
    ]
  ]
