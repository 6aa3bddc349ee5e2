-- ===== src/Shared/Network.antt =====
-- What axios, the breaker, the network and Express are asked for where one service calls another. None
-- of them is part of the repository: the records here are hypotheses.
use ecommerce_microservice.Prelude.{ℕ, ◌≡◌, true, none, some}
use ecommerce_microservice.Prelude.Show.{show}
use ecommerce_microservice.Shared.Errors.{Error, foreign, ◌++ˢ◌}
use ecommerce_microservice.Shared.Action.{Outcome, ok, throw, Action}
use ecommerce_microservice.Shared.Dtos.{ApiSuccessResponse}
use ecommerce_microservice.Shared.ErrorHandler.{
  Reply, success, failure, ErrorResponseBody, as_error_response,
}
use ecommerce_microservice.Shared.HttpClient.{HttpRequest, Transport}

-- The error that axios throws for a reply with an error status.
abbrev pub refused_with : ℕ → ErrorResponseBody → Error
refused_with status body = foreign (record {
  message = "Request failed with status code " ++ˢ show status;
  code = none;
  response = some (as_error_response status body);
})

-- What axios makes of a reply: one with a success body resolves, one with an error body rejects.
abbrev pub delivered : {W T : Type 0} → Reply T × W → Outcome (ApiSuccessResponse T) × W
delivered (success status a, w) = (ok (record { success = true; content = a }), w)
delivered (failure status b, w) = (throw (refused_with status b), w)

-- The breaker is closed, and every request reaches the route.
pub record Carries {W B T R : Type 0} (t : Transport W B (ApiSuccessResponse T))
    (route : R → W → Reply T × W) : Type 0 where
  pub arrives : HttpRequest B → R
  pub closed : (m : Action W (ApiSuccessResponse T)) (w : W) → t.fire m w ≡ m w
  pub sends : (r : HttpRequest B) (w : W) → t.send r w ≡ delivered (route (arrives r) w)
