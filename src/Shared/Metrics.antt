-- ===== src/Shared/Metrics.antt =====
-- shared/src/http/metrics.ts: the counter of requests. prom-client's registry is a parameter.
use ecommerce_microservice.Prelude.{ℕ, String, Option, none, some}
use ecommerce_microservice.Shared.Action.{Action}

pub record Labels : Type 0 where
  pub method : String
  pub route : String
  pub status : ℕ

-- The calls on the registry.
pub record Registry (W : Type 0) : Type 0 where
  pub inc : Labels → W → W
  pub metrics : Action W String

-- `req.route?.path ?? req.path`
abbrev pub route_or_path : Option String → String → String
route_or_path none path = path
route_or_path (some route) path = route

module _ {W : Type 0} (register : Registry W) where
  -- What the middleware does when the answer is finished.
  unfoldable pub on_finish : String → Option String → String → ℕ → W → W
  on_finish method route path status =
      register.inc (record { method = method; route = route_or_path route path; status = status })

  unfoldable pub metrics_handler : Action W String
  metrics_handler = register.metrics
