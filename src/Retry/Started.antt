-- ===== src/Retry/Started.antt =====
-- A retry worker that has started.
use ecommerce_microservice.Prelude.{ℕ, ◌≤◌, ◌≡◌, sym, subst, List}
use ecommerce_microservice.Shared.Action.{ok, Action, bind-eq-ok, ok-eq}
use ecommerce_microservice.Shared.Logger.{LogLevel}
use ecommerce_microservice.Shared.Dtos.{PaymentRetryRequestedEvent}
use ecommerce_microservice.Shared.Topology.{Declaration, assert_payment_retry_topology, retry_queue}
use ecommerce_microservice.Shared.Broker.{ConfirmChannel, Subscriber, consume}
use ecommerce_microservice.Shared.Connection
use ecommerce_microservice.Shared.Connection.{
  Amqp, RabbitMqConnection, RabbitMqConnectionOptions, max_attempts, outside,
}
use ecommerce_microservice.Shared.Connection.Connecting.{
  IsOpen, moved-IsOpen, outside-ran, outside-IsOpen, connect-IsOpen,
}
use ecommerce_microservice.Retry.Clients.{Axios, Env, new_processor}
use ecommerce_microservice.Retry.Processor.{PaymentRetryProcessor}
use ecommerce_microservice.Retry.Worker.{started_message, bootstrap}

module _ {W C K : Type 0} (amqp : Amqp W C K) (options : RabbitMqConnectionOptions W)
    (wait : ℕ → W → W) (assert_all : K → List Declaration → Action W (Unit {0}))
    (subscriber : K → Subscriber W) (publisher : K → ConfirmChannel W PaymentRetryRequestedEvent)
    (axios : Axios W) (env : Env) (listen : W → W)
    (allowed : 1 ≤ max_attempts amqp options wait) where
  -- When the start-up ends well, the connection is open, the subscription was made on its channel and
  -- the processor publishes on that channel.
  pub bootstrap-IsOpen :
      (c d : RabbitMqConnection W C K) (p : PaymentRetryProcessor W)
      → bootstrap amqp options wait assert_all subscriber publisher axios env listen c ≡ (ok p, d)
      → (k : K) × IsOpen k d
        × (p ≡ new_processor axios env options.logger wait (publisher k))
        × (w : W) × (v : W) × (consume options.logger (subscriber k) retry_queue w ≡ (ok tt, v))
  unfolding bootstrap
  bootstrap-IsOpen c d p h =
      let (k, d1, e1, r1) = bind-eq-ok (Connection.connect amqp options wait c) _ h in
      let (t2, d2, e2, r2) =
        bind-eq-ok (outside (assert_all k assert_payment_retry_topology) d1) _ r1 in
      let (t3, d3, e3, r3) =
        bind-eq-ok (outside (consume options.logger (subscriber k) retry_queue) d2) _ r2 in
      let o1 = connect-IsOpen amqp options wait c d1 k allowed e1 in
      let o2 = outside-IsOpen (assert_all k assert_payment_retry_topology) k d1 d2 tt e2 o1 in
      let o3 =
        outside-IsOpen (consume options.logger (subscriber k) retry_queue) k d2 d3 tt e3 o2 in
      let (same, is_d) = ok-eq r3 in
      (
        k,
        subst (λ b. IsOpen k b) is_d
            (moved-IsOpen k d3 (listen (options.logger LogLevel.info started_message d3.world)) o3),
        sym same,
        d2.world,
        d3.world,
        outside-ran (consume options.logger (subscriber k) retry_queue) d2 d3 tt e3,
      )
