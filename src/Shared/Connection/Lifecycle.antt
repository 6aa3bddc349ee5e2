-- ===== src/Shared/Connection/Lifecycle.antt =====
-- A timer that reconnects after a connection was lost and then closed: each of the three, the event, the
-- call of `close` and the timer, runs to its end before the next one starts.
use ecommerce_microservice.Prelude.{
  ℕ, suc, ◌-◌, ◌≤◌, ◌≡◌, refl, ap, ◌∙◌, ◌⊎◌, inl, inr, true, false, Option, none, some, arith,
}
use ecommerce_microservice.Shared.Errors.{Error}
use ecommerce_microservice.Shared.Action.{Outcome, ok, throw, settled}
use ecommerce_microservice.Shared.Connection.{
  Amqp, RabbitMqConnection, RabbitMqConnectionOptions, max_attempts, close_channel?,
  close_connection?, connect_once, connect_loop, connect, close, on_close, reconnect,
}
use ecommerce_microservice.Shared.Connection.Connecting.{IsOpen, connect-Ends}

module _ {W C K : Type 0} (amqp : Amqp W C K) (options : RabbitMqConnectionOptions W)
    (wait : ℕ → W → W) where
  -- The connection is lost, and then `close` is called.
  abbrev pub lost_and_closed : RabbitMqConnection W C K → RabbitMqConnection W C K
  lost_and_closed c = (close amqp options wait (on_close amqp options wait c).1).1

module _ {W C K : Type 0} (amqp : Amqp W C K) (options : RabbitMqConnectionOptions W)
    (wait : ℕ → W → W) (allowed : 1 ≤ max_attempts amqp options wait) where
  close_channel?-world :
      (o : Option K) (c : RabbitMqConnection W C K)
      → ((w : W) × (close_channel? amqp options wait o c ≡ (ok tt, record c { world = w })))
        ⊎ ((x : Error) × (w : W) × (close_channel? amqp options wait o c
              ≡ (throw x, record c { world = w })))
  close_channel?-world none c = inl (c.world, refl)
  close_channel?-world (some k) c = elim (settled (amqp.close_channel k c.world)) [
    | inl (done, w, e) ↦ inl (w, rw e)
    | inr (x, w, e) ↦ inr (x, w, rw e)
  ]

  close_connection?-world :
      (o : Option C) (c : RabbitMqConnection W C K)
      → (r : Outcome (Unit {0})) × (w : W) × (close_connection? amqp options wait o c
          ≡ (r, record c { world = w }))
  close_connection?-world none c = (ok tt, c.world, refl)
  close_connection?-world (some k) c = let (r, w) = amqp.close_connection k c.world in (r, w, refl)

  -- `close` sets the closing flag and leaves the other fields as they are.
  close-kept :
      (c : RabbitMqConnection W C K)
      → (r : Outcome (Unit {0})) × (w : W) × (close amqp options wait c
          ≡ (r, record c { world = w; is_closing_intentionally = true }))
  unfolding close
  close-kept c =
      let d : RabbitMqConnection W C K = record c { is_closing_intentionally = true } in
      elim (close_channel?-world c.channel d) [
        | inr (x, w, e) ↦ (throw x, w, rw e)
        | inl (w, e) ↦
            let (r, v, f) = close_connection?-world c.connection (record d { world = w }) in
            (r, v, rw (e, f))
      ]

  pub reconnect-answered :
      (c d : RabbitMqConnection W C K) (k : K)
      → connect_once amqp options wait c ≡ (ok k, d)
      → IsOpen k (reconnect amqp options wait c)
        × ((reconnect amqp options wait c).is_closing_intentionally ≡ c.is_closing_intentionally)
  unfolding reconnect connect connect_loop
  reconnect-answered c d k answered =
      let rounds : max_attempts amqp options wait ≡ suc (max_attempts amqp options wait - 1) =
        omega arith in
      let ended : connect amqp options wait c ≡ (ok k, d) = rw (rounds, answered) in
      let ends = connect-Ends amqp options wait c allowed in
      let (opened, same) = (rw ended at ends) in rw ended (opened, same)

  -- A connection that is lost while the object is not being closed asks for a timer. When the timer runs
  -- after a `close` that came in between and has ended, and the broker answers its first attempt, the object
  -- holds an open connection again, although it is being closed: `reconnect` does not ask for that.
  pub close-reopened :
      (c d : RabbitMqConnection W C K) (k : K)
      → c.is_closing_intentionally ≡ false
      → connect_once amqp options wait (lost_and_closed amqp options wait c) ≡ (ok k, d)
      → ((on_close amqp options wait c).0 ≡ true)
        × IsOpen k (reconnect amqp options wait (lost_and_closed amqp options wait c))
        × ((reconnect amqp options wait
              (lost_and_closed amqp options wait c)).is_closing_intentionally
            ≡ true)
  unfolding on_close
  close-reopened c d k live answered =
      let dropped = (on_close amqp options wait c).1 in
      let closed = (close amqp options wait dropped).1 in
      let (opened, same) = reconnect-answered closed d k answered in
      let (r, w, e) = close-kept dropped in
      let closing : closed.is_closing_intentionally ≡ true =
        ap (λ (p : Outcome (Unit {0}) × RabbitMqConnection W C K). p.1.is_closing_intentionally)
          e in
      (rw live, opened, same ∙ closing)
