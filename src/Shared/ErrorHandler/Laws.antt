-- ===== src/Shared/ErrorHandler/Laws.antt =====
-- What the error handler tells a caller.
use ecommerce_microservice.Prelude.{String, ◌≡◌, Option}
use ecommerce_microservice.Shared.Errors.{ForeignError, foreign}
use ecommerce_microservice.Shared.Action.{Action, throw}
use ecommerce_microservice.Shared.Logger.{Logger}
use ecommerce_microservice.Shared.ErrorHandler.{Reply, async_handler}

module _ {W T : Type 0} (logger : Logger W) (correlation_id : Option String) where
  -- Requests whose handlers fail with unexpected errors get the same reply, whatever the errors say and
  -- in whatever worlds: nothing of a driver's or a programmer's error reaches the caller, with the same
  -- correlation id.
  pub async_handler-no_leak :
      (f g : Action W (Reply T)) (a b : ForeignError) (w u v x : W)
      → f w ≡ (throw (foreign a), u)
      → g v ≡ (throw (foreign b), x)
      → (async_handler logger correlation_id f w).0 ≡ (async_handler logger correlation_id g v).0
  unfolding async_handler
  async_handler-no_leak f g a b w u v x p q = rw (p, q)
