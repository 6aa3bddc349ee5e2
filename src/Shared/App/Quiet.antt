-- ===== src/Shared/App/Quiet.antt =====
-- An app leaves a part of the world alone for a request, if every route does so for it.
use ecommerce_microservice.Prelude.{String, ◌≡◌, refl, ◌∙◌, Option, none, some, List, [], ◌∷◌, All}
use ecommerce_microservice.Shared.Json.{Json}
use ecommerce_microservice.Shared.Action.{Outcome, ok, throw}
use ecommerce_microservice.Shared.Logger.{Logger}
use ecommerce_microservice.Shared.Headers.{Headers, header, correlation_id_header}
use ecommerce_microservice.Shared.ErrorHandler.{Reply, success, failure}
use ecommerce_microservice.Shared.Metrics.{Registry, Labels, on_finish}
use ecommerce_microservice.Shared.Leaves.{LeavesLogging, log_error-Leaves}
use ecommerce_microservice.Shared.App.{
  HttpCall, Received, Answer, Route, among, with_metrics, correlation_id_middleware, first_of,
  matched, dispatched, finished, after_body, create_app,
}

-- The route leaves it alone for every request with these headers.
abbrev pub LeavesFor : {W T X : Type 0} → (W → X) → Headers → Route W T → Type 0
LeavesFor {W} view headers route =
    (q : Received) (w : W) → q.headers ≡ headers → view (route.handler q w).1 ≡ view w

pub among-leaves :
    {W X A T : Type 0} (view : W → X) (f : A → T) (p : Reply A × W) → view (among f p).1 ≡ view p.1
among-leaves view f (success status a, w) = refl
among-leaves view f (failure status b, w) = refl

pub with_metrics-leaves :
    {W X : Type 0} (T : Type 0) (view : W → X) (p : Outcome String × W)
    → view (with_metrics {T = T} p).1 ≡ view p.1
with_metrics-leaves T view (ok text, w) = refl
with_metrics-leaves T view (throw e, w) = refl

correlation_id_middleware-leaves :
    {W X : Type 0} (view : W → X) (uuid : W → String × W)
    → ((w : W) → view (uuid w).1 ≡ view w)
    → (c : Option String) (w : W) → view (correlation_id_middleware uuid c w).1 ≡ view w
unfolding correlation_id_middleware
correlation_id_middleware-leaves view uuid draws none w = draws w
correlation_id_middleware-leaves view uuid draws (some id) w = refl

module _ {W T X : Type 0} (view : W → X) (matches : String → String → HttpCall → Option Json)
    (helmet : Headers → Headers) (json : String → Outcome Json) (uuid : W → String × W)
    (registry : Registry W) (logger : Logger W) (logs : LeavesLogging view logger)
    (draws : (w : W) → view (uuid w).1 ≡ view w)
    (counts : (l : Labels) (w : W) → view (registry.inc l w) ≡ view w) where
  abbrev Served : HttpCall → Option (Route W T × Json) → Type 0
  Served r none = Unit
  Served r (some (route, params)) = LeavesFor view r.headers route

  first_of-Served :
      (r : HttpCall) (route : Route W T) (o : Option Json) (rest : Option (Route W T × Json))
      → LeavesFor view r.headers route
      → Served r rest
      → Served r (first_of route o rest)
  first_of-Served r route none rest leaves later = later
  first_of-Served r route (some params) rest leaves later = leaves

  matched-Served :
      (r : HttpCall) (routes : List (Route W T))
      → All (LeavesFor view r.headers) routes
      → Served r (matched matches routes r)
  matched-Served r [] h = tt
  matched-Served r (route ∷ routes) h =
      first_of-Served r route (matches route.method route.pattern r) (matched matches routes r) h.0
        (matched-Served r routes h.1)

  dispatched-leaves :
      (r : HttpCall) (body : Json) (id : String) (found : Option (Route W T × Json)) (w : W)
      → Served r found
      → view (dispatched matches r body id found w).1 ≡ view w
  dispatched-leaves r body id none w served = refl
  dispatched-leaves r body id (some (route, params)) w served = served _ w refl

  finished-leaves :
      (routes : List (Route W T)) (r : HttpCall) (route : Option String) (headers : Headers)
      (p : Option (Answer T) × W)
      → view (finished matches helmet json uuid registry routes logger r route headers p).1
        ≡ view p.1
  unfolding on_finish
  finished-leaves routes r route headers (none, w) = refl
  finished-leaves routes r route headers (some a, w) = counts _ w

  after_body-leaves :
      (routes : List (Route W T)) (r : HttpCall) (body : Outcome Json) (w : W)
      → All (LeavesFor view r.headers) routes
      → view (after_body matches helmet json uuid registry routes logger r body w).1 ≡ view w
  after_body-leaves routes r (throw e) w quiet =
      log_error-Leaves view logger logs (header correlation_id_header r.headers) e w
  after_body-leaves routes r (ok body) w quiet =
      let c = header correlation_id_header r.headers in
      let (id, v) = correlation_id_middleware uuid c w in
      finished-leaves routes r _ _ _
      ∙ dispatched-leaves r body id (matched matches routes r) v (matched-Served r routes quiet)
      ∙ correlation_id_middleware-leaves view uuid draws c w

  pub create_app-leaves :
      (routes : List (Route W T)) (r : HttpCall) (w : W)
      → All (LeavesFor view r.headers) routes
      → view (create_app matches helmet json uuid registry routes logger r w).1 ≡ view w
  unfolding create_app
  create_app-leaves routes r w = after_body-leaves routes r (json r.content) w
