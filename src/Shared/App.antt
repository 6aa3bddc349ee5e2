-- ===== src/Shared/App.antt =====
-- app.ts and routes/index.ts of the four services, which differ in the service's name and its routes:
-- the middlewares and the routes in their order. Express's matching of a path with a pattern, its
-- reading of a body, helmet and the registry of prom-client are parameters.
pub mod Quiet
use ecommerce_microservice.Prelude.{ℕ, String, Bool, Option, none, some, List, [], ◌∷◌}
use ecommerce_microservice.Shared.Json.{Json}
use ecommerce_microservice.Shared.Errors.{Error}
use ecommerce_microservice.Shared.Action.{Outcome, ok, throw}
use ecommerce_microservice.Shared.Logger.{Logger}
use ecommerce_microservice.Shared.Headers.{Headers, header, set_header, correlation_id_header}
use ecommerce_microservice.Shared.ErrorHandler.{
  Reply, success, failure, status_of, error_handler, log_error, not_found_handler,
}
use ecommerce_microservice.Shared.Metrics.{Registry, on_finish, metrics_handler}
use ecommerce_microservice.Shared.Middleware.{Health, health_check_handler}

-- A request as it arrives.
pub record HttpCall : Type 0 where
  pub method : String
  pub path : String
  pub original_url : String
  pub headers : Headers
  pub query : Json
  pub content : String

-- The request as a handler reads it.
pub record Received : Type 0 where
  pub correlation_id : String
  pub headers : Headers
  pub params : Json
  pub query : Json
  pub body : Json

-- What is sent: a reply of a controller, the health or the metrics.
pub data Answer (T : Type 0) : Type 0 where
  replied : Reply T → Answer T
  checked : ℕ → Health → Answer T
  rendered : String → Answer T

pub record Response (T : Type 0) : Type 0 where
  pub headers : Headers
  pub answer : Answer T

-- A route by its method, the pattern where it is mounted, and the pattern that it is declared with. A
-- handler whose promise is rejected and not handed on leaves its request without an answer.
pub record Route (W T : Type 0) : Type 0 where
  pub method : String
  pub pattern : String
  pub path : String
  pub handler : Received → W → Option (Answer T) × W

module _ {T : Type 0} where
  -- `res.statusCode`
  abbrev pub status_code : Answer T → ℕ
  status_code (replied r) = status_of r
  status_code (checked status h) = status
  status_code (rendered text) = 200

  -- The content of a controller's reply among the contents of its service.
  abbrev pub among : {A W : Type 0} → (A → T) → Reply A × W → Option (Answer T) × W
  among f (success status a, w) = (some (replied (success status (f a))), w)
  among f (failure status b, w) = (some (replied (failure status b)), w)

  abbrev pub with_health : {W : Type 0} → (ℕ × Health) × W → Option (Answer T) × W
  with_health ((status, h), w) = (some (checked status h), w)

  abbrev pub with_metrics : {W : Type 0} → Outcome String × W → Option (Answer T) × W
  with_metrics (ok text, w) = (some (rendered text), w)
  with_metrics (throw e, w) = (none, w)

-- `req.headers['x-correlation-id'] ?? randomUUID()`
unfoldable pub correlation_id_middleware :
    {W : Type 0} → (W → String × W) → Option String → W → String × W
correlation_id_middleware uuid none w = uuid w
correlation_id_middleware uuid (some id) w = (id, w)

module _ {W T : Type 0} where
  -- The two routes that every service has.
  abbrev pub health_endpoint : String → (W → Bool) → (W → ℕ × W) → Route W T
  health_endpoint service_name is_ready now = record {
    method = "GET";
    pattern = "/health";
    path = "/health";
    handler = λ q w.
        let (at, v) = now w in with_health (health_check_handler service_name (is_ready v) at, v);
  }

  abbrev pub metrics_endpoint : Registry W → Route W T
  metrics_endpoint registry = record {
    method = "GET";
    pattern = "/metrics";
    path = "/metrics";
    handler = λ q w. with_metrics (metrics_handler registry w);
  }

  abbrev pub first_of :
      Route W T → Option Json → Option (Route W T × Json) → Option (Route W T × Json)
  first_of route none rest = rest
  first_of route (some params) rest = some (route, params)

  -- `req.route?.path`
  abbrev pub route_path : Option (Route W T × Json) → Option String
  route_path none = none
  route_path (some (route, params)) = some route.path

module _ {W T : Type 0} (matches : String → String → HttpCall → Option Json) where
  -- The first route that Express matches, with the parameters of the path.
  abbrev pub matched : List (Route W T) → HttpCall → Option (Route W T × Json)
  matched [] r = none
  matched (route ∷ routes) r =
      first_of route (matches route.method route.pattern r) (matched routes r)

  abbrev pub dispatched :
      HttpCall → Json → String → Option (Route W T × Json) → W → Option (Answer T) × W
  dispatched r body id none w = (some (replied (not_found_handler r.method r.original_url)), w)
  dispatched r body id (some (route, params)) w =
      route.handler
        (record {
          correlation_id = id;
          headers = r.headers;
          params = params;
          query = r.query;
          body = body;
        })
        w

  module _ (helmet : Headers → Headers) (json : String → Outcome Json) (uuid : W → String × W)
      (registry : Registry W) (routes : List (Route W T)) (logger : Logger W) where
    -- The metrics middleware counts what was answered.
    abbrev pub finished :
        HttpCall → Option String → Headers → Option (Answer T) × W → Option (Response T) × W
    finished r route headers (none, w) = (none, w)
    finished r route headers (some a, w) = (
      some (record { headers = headers; answer = a }),
      on_finish registry r.method route r.path (status_code a) w,
    )

    -- A body that cannot be read goes to the error handler past the other middlewares.
    abbrev pub after_body : HttpCall → Outcome Json → W → Option (Response T) × W
    after_body r (throw e) w = (
      some (record {
        headers = helmet [];
        answer = replied (error_handler (header correlation_id_header r.headers) e);
      }),
      log_error logger (header correlation_id_header r.headers) e w,
    )
    after_body r (ok body) w =
        let (id, v) = correlation_id_middleware uuid (header correlation_id_header r.headers) w in
        let found = matched routes r in
        finished r (route_path found) (set_header correlation_id_header id (helmet []))
          (dispatched r body id found v)

    unfoldable pub create_app : HttpCall → W → Option (Response T) × W
    create_app r = after_body r (json r.content)
