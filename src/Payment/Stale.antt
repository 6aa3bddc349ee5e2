-- ===== src/Payment/Stale.antt =====
-- The publisher of the payment service after a reconnection.
use ecommerce_microservice.Prelude.{
  ℕ, ◌≤◌, ◌≡◌, refl, sym, ap, subst, ◌∙◌, inl, inr, true, false, some, List,
}
use ecommerce_microservice.Shared.Action.{ok, Action, settled, bind-eq-ok, ok-eq}
use ecommerce_microservice.Shared.Topology.{
  Declaration, assert_transaction_topology, assert_payment_retry_topology,
}
use ecommerce_microservice.Shared.Connection.{
  Amqp, RabbitMqConnection, RabbitMqConnectionOptions, new_connection, outside, max_attempts,
  connect_once, connect, on_close, reconnect,
}
use ecommerce_microservice.Shared.Connection.Connecting.{IsOpen, moved-IsOpen, connect-Ends}
use ecommerce_microservice.Shared.Connection.Lifecycle.{reconnect-answered}
use ecommerce_microservice.Payment.Rabbitmq.{
  Rabbitmq, on_object, is_rabbitmq_ready, get_publisher, connect_rabbitmq,
}

-- The object is there, open on the channel, and not being closed.
pub record IsUp {W C K : Type 0} (k : K) (m : Rabbitmq W C K) : Type 0 where
  pub opened : IsOpen k m.object
  pub made_is : m.made ≡ true
  pub closing_is : m.object.is_closing_intentionally ≡ false

module _ {W C K : Type 0} where
  -- A call on the world that succeeds changes nothing else.
  pub outside-IsUp :
      (a : Action W (Unit {0})) (k : K) (m v : Rabbitmq W C K)
      → on_object (outside a) m ≡ (ok tt, v)
      → IsUp k m
      → IsUp k v
  outside-IsUp a k m v h o = elim (settled (a m.object.world)) [
    | inl (done, w, e) ↦
        let (unit, is_v) = ok-eq (rw e at h) in
        subst (λ n. IsUp k n) is_v
          (record {
            opened = moved-IsOpen k m.object w o.opened;
            made_is = o.made_is;
            closing_is = o.closing_is;
          })
    | inr (x, w, e) ↦ absurd (let bad = (rw e at h) in cc)
  ]

module _ {W C K : Type 0} (amqp : Amqp W C K) (options : RabbitMqConnectionOptions W)
    (wait : ℕ → W → W) where
  -- The connection is lost and its timer reconnects.
  abbrev pub reconnected : Rabbitmq W C K → Rabbitmq W C K
  reconnected m = record m {
    object = reconnect amqp options wait (on_close amqp options wait m.object).1;
  }

module _ {W C K : Type 0} (amqp : Amqp W C K) (options : RabbitMqConnectionOptions W)
    (wait : ℕ → W → W) (assert_all : K → List Declaration → Action W (Unit {0}))
    (allowed : 1 ≤ max_attempts amqp options wait) where
  connect-IsUp :
      (m u : Rabbitmq W C K) (k : K)
      → on_object (connect amqp options wait) m ≡ (ok k, u)
      → m.made ≡ true
      → m.object.is_closing_intentionally ≡ false
      → IsUp k u
  connect-IsUp m u k h made live = elim (settled (connect amqp options wait m.object)) [
    | inl (j, d, e) ↦
        let (same, is_u) = ok-eq (rw e at h) in
        let ends = connect-Ends amqp options wait m.object allowed in
        let (opened, kept) = (rw e at ends) in
        subst (λ n. IsUp k n) is_u
          (record {
            opened = subst (λ i. IsOpen i d) same opened;
            made_is = made;
            closing_is = kept ∙ live;
          })
    | inr (x, d, e) ↦ absurd (let bad = (rw e at h) in cc)
  ]

  abbrev fresh : Rabbitmq W C K → Rabbitmq W C K
  fresh m = record m { object = new_connection m.object.world; made = true }

  pub connect_rabbitmq-IsUp :
      (m m1 : Rabbitmq W C K)
      → connect_rabbitmq amqp options wait assert_all m ≡ (ok tt, m1)
      → (k : K) × IsUp k m1 × (m1.publisher ≡ some k)
  unfolding connect_rabbitmq
  connect_rabbitmq-IsUp m m1 h =
      let (k, u1, e1, r1) = bind-eq-ok (on_object (connect amqp options wait) (fresh m)) _ h in
      let (d2, u2, e2, r2) =
        bind-eq-ok (on_object (outside (assert_all k assert_transaction_topology)) u1) _ r1 in
      let (d3, u3, e3, r3) =
        bind-eq-ok (on_object (outside (assert_all k assert_payment_retry_topology)) u2) _ r2 in
      let o1 = connect-IsUp (fresh m) u1 k e1 refl refl in
      let o2 = outside-IsUp (assert_all k assert_transaction_topology) k u1 u2 e2 o1 in
      let o3 = outside-IsUp (assert_all k assert_payment_retry_topology) k u2 u3 e3 o2 in
      let (done, is_m1) = ok-eq r3 in
      (
        k,
        subst (λ n. IsUp k n) is_m1
            (record { opened = o3.opened; made_is = o3.made_is; closing_is = o3.closing_is }),
        ap (λ (n : Rabbitmq W C K). n.publisher) (sym is_m1),
      )

  -- After the module has connected, the publisher is on the connection's channel. When that connection
  -- is lost, a timer is set, and if its first attempt to reconnect succeeds, the module reports ready and the connection
  -- has the new channel, but `getPublisher` still answers with the publisher on the old one.
  pub publisher-stale :
      (m m1 : Rabbitmq W C K) (d : RabbitMqConnection W C K) (new : K)
      → connect_rabbitmq amqp options wait assert_all m ≡ (ok tt, m1)
      → connect_once amqp options wait (on_close amqp options wait m1.object).1 ≡ (ok new, d)
      → (old : K) × (m1.object.channel ≡ some old)
        × ((on_close amqp options wait m1.object).0 ≡ true)
        × (is_rabbitmq_ready (reconnected amqp options wait m1) ≡ true)
        × ((reconnected amqp options wait m1).object.channel ≡ some new)
        × (get_publisher (reconnected amqp options wait m1)
            ≡ (ok old, reconnected amqp options wait m1))
  unfolding is_rabbitmq_ready get_publisher on_close
  publisher-stale m m1 d new connected answered =
      let (old, up, kept) = connect_rabbitmq-IsUp m m1 connected in
      let (opened, same) =
        reconnect-answered amqp options wait allowed (on_close amqp options wait m1.object).1 d new
          answered in
      (
        old,
        up.opened.channel_is,
        rw up.closing_is,
        rw (up.made_is, opened.connected_is),
        opened.channel_is,
        rw kept,
      )
