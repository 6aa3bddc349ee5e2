-- ===== src/Payment/Keyless.antt =====
-- What a request without the internal key can do to what the payment service has announced.
use ecommerce_microservice.Prelude.{
  ℕ, String, Bool, ◌≡◌, ◌≢◌, refl, ap, sym, ◌∙◌, Option, some, All,
}
use ecommerce_microservice.Shared.Json.{Json}
use ecommerce_microservice.Shared.Action.{Outcome}
use ecommerce_microservice.Shared.Logger.{Logger}
use ecommerce_microservice.Shared.Headers.{Headers, header, internal_api_key_header}
use ecommerce_microservice.Shared.Metrics.{Registry, Labels, metrics_handler}
use ecommerce_microservice.Shared.Middleware.{Validation}
use ecommerce_microservice.Shared.Middleware.Laws.{internal_auth-refuses}
use ecommerce_microservice.Shared.ErrorHandler.{async_handler}
use ecommerce_microservice.Shared.Broker.{ConfirmChannel}
use ecommerce_microservice.Shared.Dtos.{
  InitiatePaymentRequest, InitiatePaymentResponse, TransactionCreatedEvent,
}
use ecommerce_microservice.Shared.Leaves.{Leaves, LeavesLogging}
use ecommerce_microservice.Shared.App.{HttpCall, Received}
use ecommerce_microservice.Shared.App.Quiet.{
  LeavesFor, among-leaves, with_metrics-leaves, create_app-leaves,
}
use ecommerce_microservice.Payment.Service.{payment_route}
use ecommerce_microservice.Payment.Module.{create_payment_module}
use ecommerce_microservice.Payment.App.{create_routes, create_app}

module _ {W X : Type 0} (view : W → X) (logger : Logger W)
    (channel : ConfirmChannel W TransactionCreatedEvent) (uuid : W → String × W) (now : W → ℕ × W)
    (schema : Json → Validation InitiatePaymentRequest) (internal_api_key : String)
    (registry : Registry W) (is_ready : W → Bool) (logs : LeavesLogging view logger)
    (draws : (w : W) → view (uuid w).1 ≡ view w) (ticks : (w : W) → view (now w).1 ≡ view w)
    (counts : (l : Labels) (w : W) → view (registry.inc l w) ≡ view w)
    (renders : Leaves view registry.metrics) where
  payment_route-refuses :
      (id : String) (headers : Headers) (body : Json) (w : W)
      → header internal_api_key_header headers ≢ some internal_api_key
      → view
          (create_payment_module logger channel uuid now schema internal_api_key id headers body
            w).1
        ≡ view w
  unfolding create_payment_module payment_route async_handler
  payment_route-refuses id headers body w keyless =
      rw (internal_auth-refuses _ internal_api_key headers w keyless) refl

  routes-leave :
      (headers : Headers)
      → header internal_api_key_header headers ≢ some internal_api_key
      → All
          (LeavesFor view headers)
          (create_routes logger channel uuid now schema internal_api_key registry is_ready)
  unfolding create_routes metrics_handler
  routes-leave headers keyless =
      let told = λ (q : Received) (w : W) (same : q.headers ≡ headers).
        with_metrics-leaves InitiatePaymentResponse view (registry.metrics w) ∙ renders w in
      let refused = λ (q : Received) (w : W) (same : q.headers ≡ headers).
        among-leaves {T = InitiatePaymentResponse} view (λ (a : InitiatePaymentResponse). a) _
        ∙ payment_route-refuses q.correlation_id q.headers q.body w
            (λ e. keyless (ap (header internal_api_key_header) (sym same) ∙ e)) in
      (λ q w same. ticks w, (told, (refused, tt)))

  -- A request without the internal key leaves alone whatever the log, the clock, the ids and the
  -- metrics leave alone, such as what the broker was given: whatever its method, path, headers and
  -- body, and however Express matches it.
  pub create_app-keyless :
      (matches : String → String → HttpCall → Option Json) (helmet : Headers → Headers)
      (json : String → Outcome Json) (r : HttpCall) (w : W)
      → header internal_api_key_header r.headers ≢ some internal_api_key
      → view
          (create_app logger channel uuid now schema internal_api_key registry is_ready matches
            helmet json r w).1
        ≡ view w
  unfolding create_app
  create_app-keyless matches helmet json r w keyless =
      create_app-leaves view matches helmet json uuid registry logger logs draws counts
        (create_routes logger channel uuid now schema internal_api_key registry is_ready) r w
        (routes-leave r.headers keyless)
