-- ===== src/Shared/Monitoring.antt =====
-- What the workers' monitoring endpoints share: transaction-worker/src/monitoring.ts and
-- payment-retry-worker/src/monitoring.ts differ in the service's name and in the queue. The channel's
-- `checkQueue` and prom-client's gauge and registry are parameters.
use ecommerce_microservice.Prelude.{ℕ, String}
use ecommerce_microservice.Shared.Action.{Action, pure, effect, try_catch, ◌>>=◌, ◌>>◌}

pub record Monitor (W : Type 0) : Type 0 where
  pub check_queue : String → Action W ℕ
  pub set_gauge : ℕ → W → W
  pub metrics : Action W String

module _ {W : Type 0} (m : Monitor W) where
  -- The `try` and the `catch` of the `/metrics` route: a check that fails leaves the gauge alone.
  unfoldable pub update_gauge : String → Action W (Unit {0})
  update_gauge queue =
      try_catch (m.check_queue queue >>= λ count. effect (m.set_gauge count)) λ _. pure tt

  unfoldable pub metrics_route : String → Action W String
  metrics_route queue = do update_gauge queue; m.metrics
