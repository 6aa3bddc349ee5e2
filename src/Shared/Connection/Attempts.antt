-- ===== src/Shared/Connection/Attempts.antt =====
-- The attempts of `connect` one by one.
use ecommerce_microservice.Prelude.{
  ℕ, zero, suc, ◌+◌, ◌-◌, ◌<◌, ◌≡◌, refl, sym, ap, ◌∙◌, false, ◌==◌, arith,
}
use ecommerce_microservice.Shared.Errors.{Error}
use ecommerce_microservice.Shared.Action.{ok, throw, ok-eq}
use ecommerce_microservice.Shared.Connection.Connecting.{clean_up_lem, connect_once_lem}
use ecommerce_microservice.Shared.Connection.{
  Amqp, RabbitMqConnection, RabbitMqConnectionOptions, max_attempts, pause, connect_once, clean_up,
  connect_loop, connect,
}

module _ {W C K : Type 0} (amqp : Amqp W C K) (options : RabbitMqConnectionOptions W)
    (wait : ℕ → W → W) where
  -- `n` attempts from `c` that failed, each cleaned up and followed by the pause, lead to `d`.
  pub data Attempted (c : RabbitMqConnection W C K) : ℕ → RabbitMqConnection W C K → Type 0 where
    start : Attempted c 0 c
    again :
        {n : ℕ} {d e f : RabbitMqConnection W C K} (x : Error)
        → Attempted c n d
        → connect_once amqp options wait d ≡ (throw x, e)
        → clean_up amqp options wait e ≡ (ok tt, f)
        → Attempted c (suc n) (pause amqp options wait f)

  clean_up-kept :
      (e f : RabbitMqConnection W C K)
      → clean_up amqp options wait e ≡ (ok tt, f)
      → f.is_closing_intentionally ≡ e.is_closing_intentionally
  clean_up-kept e f cleaned =
      let (w, lem) = clean_up_lem amqp options wait e in
      let (done, same) = ok-eq (sym lem ∙ cleaned) in
      ap (λ (g : RabbitMqConnection W C K). g.is_closing_intentionally) (sym same)

  connect_loop-again :
      (rounds attempt : ℕ) (d e f : RabbitMqConnection W C K) (x : Error)
      → connect_once amqp options wait d ≡ (throw x, e)
      → clean_up amqp options wait e ≡ (ok tt, f)
      → (attempt == max_attempts amqp options wait) ≡ false
      → f.is_closing_intentionally ≡ false
      → connect_loop amqp options wait (suc rounds) attempt d
        ≡ connect_loop amqp options wait rounds (attempt + 1) (pause amqp options wait f)
  unfolding connect_loop
  connect_loop-again rounds attempt d e f x failed cleaned more live =
      rw (failed, cleaned, more, live)

  Attempted-rounds :
      {c : RabbitMqConnection W C K} (n : ℕ) {d : RabbitMqConnection W C K}
      → c.is_closing_intentionally ≡ false
      → Attempted c n d
      → n < max_attempts amqp options wait
      → (d.is_closing_intentionally ≡ false)
        × (connect amqp options wait c
            ≡ connect_loop amqp options wait (max_attempts amqp options wait - n) (n + 1) d)
  Attempted-rounds {c} zero live start lt = (
    live,
    let full : max_attempts amqp options wait - 0 ≡ max_attempts amqp options wait = omega arith in
        rw full (unfold connect in refl),
  )
  Attempted-rounds (suc n) live (again {d} {e} {f} x r failed cleaned) lt =
      let (open_still, same) = Attempted-rounds n live r (omega arith) in
      let kept = connect_once_lem amqp options wait d in
      let e_open : e.is_closing_intentionally ≡ d.is_closing_intentionally =
        (rw failed at kept).0 in
      let f_open = clean_up-kept e f cleaned ∙ e_open ∙ open_still in
      let rounds : max_attempts amqp options wait - n
          ≡ suc (max_attempts amqp options wait - suc n) =
        omega arith in
      let more : (n + 1 == max_attempts amqp options wait) ≡ false = ground arith in
      let shift : n + 1 + 1 ≡ suc n + 1 = omega arith in
      (
        f_open,
        same
            ∙ ap (λ k. connect_loop amqp options wait k (n + 1) d) rounds
            ∙ connect_loop-again (max_attempts amqp options wait - suc n) (n + 1) d e f x failed
                cleaned more f_open
            ∙ ap
                (λ k.
                  connect_loop amqp options wait (max_attempts amqp options wait - suc n) k
                    (pause amqp options wait f))
                shift,
      )

  -- A broker that answers before the attempts run out is reached: after any number of failed attempts
  -- below the bound, the first attempt that succeeds ends `connect` with its channel, unless the
  -- object is being closed.
  pub connect-reaches :
      {c : RabbitMqConnection W C K} (n : ℕ) {d e : RabbitMqConnection W C K} (k : K)
      → c.is_closing_intentionally ≡ false
      → Attempted c n d
      → n < max_attempts amqp options wait
      → connect_once amqp options wait d ≡ (ok k, e)
      → connect amqp options wait c ≡ (ok k, e)
  unfolding connect_loop
  connect-reaches n {d} k live r lt answered =
      let (open_still, same) = Attempted-rounds n live r lt in
      let rounds : max_attempts amqp options wait - n
          ≡ suc (max_attempts amqp options wait - suc n) =
        omega arith in
      same ∙ rw (rounds, answered)
