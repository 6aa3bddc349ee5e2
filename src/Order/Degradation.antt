-- ===== src/Order/Degradation.antt =====
-- The checkout against a payment service that is down, and against a product service that refuses.
use ecommerce_microservice.Prelude.{
  ℕ, String, ◌≡◌, refl, sym, ◌∙◌, inl, inr, true, false, Bool, Option, none, some, [],
}
use ecommerce_microservice.Shared.Errors.{
  Error, foreign, ErrorResponse, ConflictError, is_upstream, ◌++ˢ◌,
}
use ecommerce_microservice.Shared.Action.{ok, throw, Action, pure, settled, bind-eq-throw}
use ecommerce_microservice.Shared.Logger.{LogLevel}
use ecommerce_microservice.Shared.Topology.{retry_exchange, retry_routing_key}
use ecommerce_microservice.Shared.Dtos.{
  InitiatePaymentRequest, InitiatePaymentResponse, ApiSuccessResponse,
}
use ecommerce_microservice.Shared.HttpClient.{
  HttpClient, Transport, HttpRequest, Method, build_headers, upstream_of, execute_with_retry, call,
}
use ecommerce_microservice.Shared.HttpClient.Failures.{call-throws_upstream}
use ecommerce_microservice.Shared.HttpClient.Retry.{execute_with_retry-client_error}
use ecommerce_microservice.Shared.ErrorHandler.{
  Reply, success, failure, error_handler, as_error_response,
}
use ecommerce_microservice.Product.Model.{Product}
use ecommerce_microservice.Product.Service.{insufficient_stock}
use ecommerce_microservice.Order.Clients
use ecommerce_microservice.Order.Clients.{StockMutation}
use ecommerce_microservice.Order.Dependencies.{OrderService, retry_event}
use ecommerce_microservice.Order.Service.{
  degrade_message, unpublished_message, queue_for_retry, try_initiate_payment,
}

module _ {W : Type 0} (s : OrderService W) where
  -- Whether the broker confirms the event or not, the attempt ends with `false`.
  queue_for_retry-false :
      (p : InitiatePaymentRequest) (c : Option String) (w : W)
      → (v : W) × (queue_for_retry s p c w ≡ (ok false, v))
  unfolding queue_for_retry
  queue_for_retry-false p c w =
      let (now, u) = s.now (s.logger LogLevel.warn degrade_message w) in
      elim (settled (s.publish retry_exchange retry_routing_key (retry_event p now) c u)) [
        | inl (b, v, e) ↦ (v, rw e)
        | inr (x, v, e) ↦ (s.logger LogLevel.error unpublished_message v, rw e)
      ]

  -- If the payment service cannot be reached and the broker confirms, the attempt ends with `false`
  -- in the world in which one retry event was published: the payment's data, attempt number one.
  pub try_initiate_payment-queues :
      (p : InitiatePaymentRequest) (c : Option String) (err : Error) (b : Bool) (w u v : W)
      → s.payment_client.initiate_payment p c w ≡ (throw err, u)
      → is_upstream err ≡ true
      → let (now, t) = s.now (s.logger LogLevel.warn degrade_message u) in
        s.publish retry_exchange retry_routing_key (retry_event p now) c t ≡ (ok b, v)
        → try_initiate_payment s p c w ≡ (ok false, v)
  unfolding try_initiate_payment queue_for_retry
  try_initiate_payment-queues p c err b w u v down upstream published =
      rw (down, upstream, published)

  module _ (http : HttpClient W)
      (t : Transport W InitiatePaymentRequest (ApiSuccessResponse InitiatePaymentResponse))
      (over_http : (p : InitiatePaymentRequest) (c : Option String) (w : W)
        → s.payment_client.initiate_payment p c w ≡ Clients.initiate_payment http t p c w) where
    initiate_payment-upstream :
        (p : InitiatePaymentRequest) (c : Option String) (w u : W) (e : Error)
        → Clients.initiate_payment http t p c w ≡ (throw e, u)
        → is_upstream e ≡ true
    unfolding Clients.initiate_payment
    initiate_payment-upstream p c w u e h =
        elim (bind-eq-throw (call Method.post http t "/payments" p c [] w)
          (λ response. pure response.content) h) [
            | inl failed ↦ call-throws_upstream http t Method.post "/payments" p c [] w failed
            | inr (r, v, called, answered) ↦ cc
          ]

    -- With the HTTP payment client an attempt at payment never throws, whatever the network, the
    -- breaker, the clock and the broker do: a checkout goes on to its answer.
    pub try_initiate_payment_total :
        (p : InitiatePaymentRequest) (c : Option String) (w : W)
        → (b : Bool) × (v : W) × (try_initiate_payment s p c w ≡ (ok b, v))
    unfolding try_initiate_payment
    try_initiate_payment_total p c w = elim (settled (s.payment_client.initiate_payment p c w)) [
      | inl (r, u, e) ↦ (true, u, rw e)
      | inr (x, u, e) ↦
          let upstream = initiate_payment-upstream p c w u x (sym (over_http p c w) ∙ e) in
          let (v, queued) = queue_for_retry-false p c u in (false, v, rw (e, upstream) queued)
    ]

-- What axios makes of a reply with an error status.
abbrev pub error_response_of : {T : Type 0} → Reply T → Option ErrorResponse
error_response_of (success s a) = none
error_response_of (failure s b) = some (as_error_response s b)

-- The request that `reserveStock` sends.
abbrev pub reserve_request :
    {W : Type 0} → HttpClient W → String → ℕ → Option String → HttpRequest StockMutation
reserve_request http product_id quantity correlation_id = record {
  method = Method.patch;
  path = "/products/" ++ˢ product_id ++ˢ "/reserve";
  body = record { quantity = quantity };
  headers = build_headers http correlation_id [];
}

-- The error that axios throws for the product service's refusal.
abbrev pub refused_by_stock : String → ℕ → Product → String → Option String → Error
refused_by_stock product_id quantity existing message seen = foreign (record {
  message = message;
  code = none;
  response =
      error_response_of {T = Product}
        (error_handler seen (insufficient_stock product_id quantity existing));
})

module _ {W T : Type 0} (http : HttpClient W) (t : Transport W StockMutation T)
    (product_id : String) (quantity : ℕ) (existing : Product) (message : String)
    (correlation_id seen : Option String) where
  -- The product service refuses a reservation for want of stock: its error handler's reply reaches
  -- the order service, which does not retry, and the client throws the conflict that the caller is
  -- to see, if the breaker lets the call through.
  pub reserve_stock-conflict :
      (w w' : W)
      → ((m : Action W T) (e : Error) (u : W)
          → m w ≡ (throw e, u)
          → (v : W) × (t.fire m w ≡ (throw e, v)))
      → t.send (reserve_request http product_id quantity correlation_id) w
        ≡ (throw (refused_by_stock product_id quantity existing message seen), w')
      → (v : W) × (Clients.reserve_stock http t product_id quantity correlation_id w
          ≡ (throw (ConflictError ("Insufficient stock for product " ++ˢ product_id)), v))
  unfolding Clients.reserve_stock call error_handler
  reserve_stock-conflict w w' closed refused =
      let err = refused_by_stock product_id quantity existing message seen in
      let request = t.send (reserve_request http product_id quantity correlation_id) in
      let ended = execute_with_retry-client_error http request err refused refl in
      let (v, through) =
        closed (execute_with_retry http request) (upstream_of http (some err)) w' ended in
      (v, rw through)
