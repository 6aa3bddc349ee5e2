-- ===== src/Payment/Started.antt =====
-- How the start of the payment service ends.
use ecommerce_microservice.Prelude.{
  ℕ, String, ◌≤◌, ◌≡◌, refl, sym, ap, subst, ◌∙◌, true, Bool, Option, some, List,
}
use ecommerce_microservice.Shared.Json.{Json}
use ecommerce_microservice.Shared.Action.{Outcome, ok, throw, Action, effect, bind-eq-ok, ok-eq}
use ecommerce_microservice.Shared.Headers.{Headers}
use ecommerce_microservice.Shared.Metrics.{Registry}
use ecommerce_microservice.Shared.Middleware.{Validation}
use ecommerce_microservice.Shared.Broker.{ConfirmChannel}
use ecommerce_microservice.Shared.Dtos.{
  InitiatePaymentRequest, InitiatePaymentResponse, TransactionCreatedEvent,
}
use ecommerce_microservice.Shared.Topology.{Declaration}
use ecommerce_microservice.Shared.Connection.{Amqp, RabbitMqConnectionOptions, max_attempts}
use ecommerce_microservice.Shared.App.{HttpCall, Response}
use ecommerce_microservice.Shared.Launch.{Launch, running, exited, caught, launch}
use ecommerce_microservice.Payment.Rabbitmq.{
  Rabbitmq, publisher_or, is_rabbitmq_ready, connect_rabbitmq, get_publisher,
}
use ecommerce_microservice.Payment.App.{create_app}
use ecommerce_microservice.Payment.Server.{logger_of, bootstrap, start}
use ecommerce_microservice.Payment.Stale.{IsUp, outside-IsUp, connect_rabbitmq-IsUp}

abbrev App : Type 0 → Type 0
App W = HttpCall → W → Option (Response InitiatePaymentResponse) × W

module _ {W C K : Type 0} (amqp : Amqp W C K) (options : RabbitMqConnectionOptions W)
    (wait : ℕ → W → W) (assert_all : K → List Declaration → Action W (Unit {0}))
    (publisher : K → ConfirmChannel W TransactionCreatedEvent) (uuid : W → String × W)
    (now : W → ℕ × W) (schema : Json → Validation InitiatePaymentRequest)
    (internal_api_key : String) (registry : Registry W) (is_ready : W → Bool)
    (matches : String → String → HttpCall → Option Json) (helmet : Headers → Headers)
    (json : String → Outcome Json) (listen : W → W) where
  -- The app that is served, and the state of the module, by how the start ended.
  abbrev pub Ready : Launch (App W) → Rabbitmq W C K → Type 0
  Ready (exited code) m = code ≡ 1
  Ready (running app) m =
      (k : K) × IsUp k m
      × (m.publisher ≡ some k)
      × (is_rabbitmq_ready m ≡ true)
      × (app
          ≡ create_app options.logger (publisher k) uuid now schema internal_api_key registry
              is_ready matches helmet json)

  abbrev served : Rabbitmq W C K → Rabbitmq W C K
  served m = record m { object = record m.object { world = listen m.object.world } }

  ready_at :
      (m : Rabbitmq W C K) → m.made ≡ true → m.object.connected ≡ true → is_rabbitmq_ready m ≡ true
  unfolding is_rabbitmq_ready
  ready_at m made connected = rw (made, connected) refl

  get_publisher-keeps :
      (m v : Rabbitmq W C K) (k c : K)
      → m.publisher ≡ some k
      → get_publisher m ≡ (ok c, v)
      → (c ≡ k) × (v ≡ m)
  unfolding get_publisher
  get_publisher-keeps m v k c has h =
      let (same, world) = ok-eq (sym (ap (λ o. publisher_or o m) has) ∙ h) in (sym same, sym world)

  bootstrap-Ready :
      1 ≤ max_attempts amqp options wait
      → (m v : Rabbitmq W C K) (app : App W)
      → bootstrap amqp options wait assert_all publisher uuid now schema internal_api_key registry
          is_ready matches helmet json listen m
        ≡ (ok app, v)
      → Ready (running app) v
  unfolding bootstrap
  bootstrap-Ready allowed m v app h =
      let (d1, u1, e1, r1) = bind-eq-ok (connect_rabbitmq amqp options wait assert_all m) _ h in
      let (k, up, has) = connect_rabbitmq-IsUp amqp options wait assert_all allowed m u1 e1 in
      let (c, u2, e2, r2) = bind-eq-ok (get_publisher u1) _ r1 in
      let (is_k, is_u1) = get_publisher-keeps u1 u2 k c has e2 in
      let (same, world) = ok-eq r2 in
      let up' = outside-IsUp (effect listen) k u1 (served u1) refl up in
      subst (λ n. Ready (running app) n) (ap served (sym is_u1) ∙ world)
        (
          k,
          up',
          has,
          ready_at (served u1) up'.made_is up'.opened.connected_is,
          sym same
              ∙ ap
                  (λ j.
                    create_app options.logger (publisher j) uuid now schema internal_api_key
                      registry is_ready matches helmet json)
                  is_k,
        )

  caught-Ready :
      (p : Outcome (App W) × Rabbitmq W C K)
      → ((app : App W) → p.0 ≡ ok app → Ready (running app) p.1)
      → let (launched, v) = caught (logger_of options.logger) "payment-service" p in
        Ready launched v
  caught-Ready (ok app, v) ready = ready app refl
  caught-Ready (throw e, v) ready = refl

  -- With at least one attempt to connect allowed, and however the broker answers, a start of the
  -- payment service either exits with code 1 or goes on with
  -- the module ready, its connection open on the channel of the publisher, and the app that announces
  -- payments on that channel.
  pub start-Ready :
      1 ≤ max_attempts amqp options wait
      → (m : Rabbitmq W C K)
      → let (launched, v) =
          start amqp options wait assert_all publisher uuid now schema internal_api_key registry
            is_ready matches helmet json listen m in
        Ready launched v
  unfolding start launch
  start-Ready allowed m =
      let p =
        bootstrap amqp options wait assert_all publisher uuid now schema internal_api_key registry
          is_ready matches helmet json listen m in
      caught-Ready p (λ app e. bootstrap-Ready allowed m p.1 app (ap (λ o. (o, p.1)) e))
