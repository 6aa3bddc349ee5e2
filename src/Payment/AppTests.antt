-- ===== src/Payment/AppTests.antt =====
-- The whole payment service over a broker that confirms everything: a request without the internal key.
-- The world lists the events that the broker confirmed.
use ecommerce_microservice.Prelude.{
  ℕ, String, Bool, true, ◌&&◌, ◌≡◌, ◌≢◌, refl, none, some, Option, List, [], ◌∷◌, str_eq,
  if◌then◌else◌,
}
use ecommerce_microservice.Shared.Json.{Json, null}
use ecommerce_microservice.Shared.Action.{Outcome, ok}
use ecommerce_microservice.Shared.Logger.{Logger}
use ecommerce_microservice.Shared.Headers.{Headers, header, set_header}
use ecommerce_microservice.Shared.Metrics.{Registry, on_finish}
use ecommerce_microservice.Shared.ErrorHandler.{failure, async_handler}
use ecommerce_microservice.Shared.Middleware.{Validation, valid, forbidden, internal_auth}
use ecommerce_microservice.Shared.Broker.{ConfirmChannel}
use ecommerce_microservice.Shared.Dtos.{InitiatePaymentRequest, TransactionCreatedEvent}
use ecommerce_microservice.Shared.App
use ecommerce_microservice.Shared.App.{HttpCall, Response, replied, correlation_id_middleware}
use ecommerce_microservice.Payment.Service.{payment_route}
use ecommerce_microservice.Payment.Module.{create_payment_module}
use ecommerce_microservice.Payment.App.{create_routes, create_app}
use ecommerce_microservice.Payment.Keyless.{create_app-keyless}

abbrev Sent : Type 0
Sent = List TransactionCreatedEvent

abbrev channel : ConfirmChannel Sent TransactionCreatedEvent
channel = record {
  publish = λ exchange key event c sent. (none, event ∷ sent);
  send_to_queue = λ queue event c sent. (none, event ∷ sent);
}

abbrev silent : Logger Sent
silent level message sent = sent

abbrev uuid : Sent → String × Sent
uuid sent = ("corr-1", sent)

abbrev clock : Sent → ℕ × Sent
clock sent = (7, sent)

abbrev schema : Json → Validation InitiatePaymentRequest
schema body =
    valid
      (record { customer_id = "cust-1"; order_id = "order-0"; product_id = "001"; amount = 19990 })

abbrev registry : Registry Sent
registry = record { inc = λ l sent. sent; metrics = λ sent. (ok "", sent) }

abbrev ready : Sent → Bool
ready sent = true

-- Express's matching, on one path.
abbrev matches : String → String → HttpCall → Option Json
matches method pattern r =
    if str_eq method r.method && str_eq pattern "/payments/" && str_eq r.path "/payments"
    then some null
    else none

abbrev same_headers : Headers → Headers
same_headers hs = hs

abbrev json : String → Outcome Json
json text = ok null

abbrev stranger : HttpCall
stranger = record {
  method = "POST";
  path = "/payments";
  original_url = "/payments";
  headers = [];
  query = null;
  content = "{}";
}

no_key : header "x-internal-api-key" stranger.headers ≢ some "a shared secret"
unfolding header
no_key e = cc

stranger_refused :
    create_app silent channel uuid clock schema "a shared secret" registry ready matches
      same_headers json stranger []
    ≡ (
      some (record {
        headers = ("x-correlation-id", "corr-1") ∷ [];
        answer = replied (failure 403 forbidden);
      }),
      [],
    )
unfolding create_app App.create_app create_routes create_payment_module payment_route async_handler
    internal_auth header set_header correlation_id_middleware on_finish
stranger_refused = refl

create_app-keyless_example :
    (create_app silent channel uuid clock schema "a shared secret" registry ready matches
      same_headers json stranger []).1
    ≡ []
create_app-keyless_example =
    create_app-keyless (λ sent. sent) silent channel uuid clock schema "a shared secret" registry
      ready (λ l m w. refl) (λ w. refl) (λ w. refl) (λ l w. refl) (λ w. refl) matches same_headers
      json stranger [] no_key
