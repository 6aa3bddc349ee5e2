-- ===== src/Shared/Connection/Connecting.antt =====
-- How an attempt to connect ends: with a channel, or with nothing left of it.
use ecommerce_microservice.Prelude.{
  ℕ, zero, suc, ◌+◌, ◌≤◌, ◌≡◌, refl, ap, subst, ◌∙◌, inl, inr, Bool, true, false, Bool-cases, ◌||◌,
  Option, none, some, ◌==◌, arith,
}
use ecommerce_microservice.Shared.Errors.{Error}
use ecommerce_microservice.Shared.Action.{Outcome, ok, throw, Action, settled, ok-eq}
use ecommerce_microservice.Shared.Connection.{
  Amqp, RabbitMqConnection, RabbitMqConnectionOptions, ignoring, outside, max_attempts, pause,
  close_channel?, close_connection?, connect_once, clean_up, connect_loop, connect,
}

-- Connected, with a connection and the channel that was returned.
pub record IsOpen {W C K : Type 0} (k : K) (c : RabbitMqConnection W C K) : Type 0 where
  pub link : C
  pub connection_is : c.connection ≡ some link
  pub channel_is : c.channel ≡ some k
  pub connected_is : c.connected ≡ true

-- Nothing is left half open.
pub record IsClear {W C K : Type 0} (c : RabbitMqConnection W C K) : Type 0 where
  pub connection_is : c.connection ≡ none
  pub channel_is : c.channel ≡ none
  pub connected_is : c.connected ≡ false

-- How `connect` leaves the object.
abbrev pub Ends : {W C K : Type 0} → Outcome K → RabbitMqConnection W C K → Type 0
Ends (ok k) c = IsOpen k c
Ends (throw e) c = IsClear c

module _ {W C K : Type 0} where
  pub moved-IsOpen :
      (k : K) (c : RabbitMqConnection W C K) (w : W)
      → IsOpen k c
      → IsOpen k (record c { world = w })
  moved-IsOpen k c w o = record {
    link = o.link;
    connection_is = o.connection_is;
    channel_is = o.channel_is;
    connected_is = o.connected_is;
  }

  pub outside-ran :
      {A : Type 0} (a : Action W A) (c d : RabbitMqConnection W C K) (r : A)
      → outside a c ≡ (ok r, d)
      → a c.world ≡ (ok r, d.world)
  outside-ran a c d r h = elim (settled (a c.world)) [
    | inl (done, w, e) ↦
        let (same, is_d) = ok-eq (rw e at h) in
        let world : w ≡ d.world = ap (λ (b : RabbitMqConnection W C K). b.world) is_d in
        rw (e, same, world)
    | inr (x, w, e) ↦ absurd (let bad = (rw e at h) in cc)
  ]

  -- A call on the world that succeeds keeps the connection open.
  pub outside-IsOpen :
      {A : Type 0} (a : Action W A) (k : K) (c d : RabbitMqConnection W C K) (r : A)
      → outside a c ≡ (ok r, d)
      → IsOpen k c
      → IsOpen k d
  outside-IsOpen a k c d r h o = elim (settled (a c.world)) [
    | inl (done, w, e) ↦
        let (same, is_d) = ok-eq (rw e at h) in subst (λ b. IsOpen k b) is_d (moved-IsOpen k c w o)
    | inr (x, w, e) ↦ absurd (let bad = (rw e at h) in cc)
  ]

module _ {W C K : Type 0} (amqp : Amqp W C K) (options : RabbitMqConnectionOptions W)
    (wait : ℕ → W → W) where
  ignoring_channel :
      (o : Option K) (c : RabbitMqConnection W C K)
      → (w : W) × (ignoring (close_channel? amqp options wait o) c
          ≡ (ok tt, record c { world = w }))
  ignoring_channel none c = (c.world, refl)
  ignoring_channel (some k) c = elim (settled (amqp.close_channel k c.world)) [
    | inl (done, w, e) ↦ (w, rw e)
    | inr (x, w, e) ↦ (w, rw e)
  ]

  ignoring_connection :
      (o : Option C) (c : RabbitMqConnection W C K)
      → (w : W) × (ignoring (close_connection? amqp options wait o) c
          ≡ (ok tt, record c { world = w }))
  ignoring_connection none c = (c.world, refl)
  ignoring_connection (some k) c = elim (settled (amqp.close_connection k c.world)) [
    | inl (done, w, e) ↦ (w, rw e)
    | inr (x, w, e) ↦ (w, rw e)
  ]

  -- The clean-up always succeeds, and puts the closing flag back as it was.
  pub clean_up_lem :
      (c : RabbitMqConnection W C K)
      → (w : W) × (clean_up amqp options wait c
          ≡ (ok tt, record c { world = w; connected = false; channel = none; connection = none }))
  unfolding clean_up
  clean_up_lem c =
      let d : RabbitMqConnection W C K = record c {
        connected = false;
        is_closing_intentionally = true;
      } in
      let (w, e) = ignoring_channel c.channel d in
      let (v, f) = ignoring_connection c.connection (record d { world = w }) in (v, rw (e, f))

  pub connect_once_lem :
      (c : RabbitMqConnection W C K)
      → let (r, d) = connect_once amqp options wait c in
        (d.is_closing_intentionally ≡ c.is_closing_intentionally)
        × ((k : K) → r ≡ ok k → IsOpen k d)
  unfolding connect_once
  connect_once_lem c = elim (settled (amqp.connect options.url c.world)) [
    | inr (x, u, e) ↦ rw e (refl, λ k h. cc)
    | inl (link, u, e) ↦ elim (settled (amqp.create_confirm_channel link u)) [
      | inr (x, v, f) ↦ rw (e, f) (refl, λ k h. cc)
      | inl (k, v, f) ↦
          rw (e, f)
            (
              refl,
              λ k' h. record {
                link = link;
                connection_is = refl;
                channel_is = ground arith;
                connected_is = refl;
              },
            )
    ]
  ]

  abbrev stops : ℕ → RabbitMqConnection W C K → Bool
  stops attempt c = attempt == max_attempts amqp options wait || c.is_closing_intentionally

  -- An attempt that fails is followed by the clean-up, and then by the next one or by its error.
  connect_loop-failed :
      (rounds attempt : ℕ) (c d : RabbitMqConnection W C K) (x : Error)
      → connect_once amqp options wait c ≡ (throw x, d)
      → (e : RabbitMqConnection W C K) × IsClear e
        × (e.is_closing_intentionally ≡ c.is_closing_intentionally)
        × (stops attempt d ≡ true
            → connect_loop amqp options wait (suc rounds) attempt c ≡ (throw x, e))
        × (stops attempt d ≡ false
            → (f : RabbitMqConnection W C K) × (f.is_closing_intentionally
                ≡ c.is_closing_intentionally)
              × (connect_loop amqp options wait (suc rounds) attempt c
                  ≡ connect_loop amqp options wait rounds (attempt + 1) f))
  unfolding connect_loop
  connect_loop-failed rounds attempt c d x failed =
      let (w, cleaned) = clean_up_lem d in
      let cleared : RabbitMqConnection W C K = record d {
        world = w;
        connected = false;
        channel = none;
        connection = none;
      } in
      let kept = connect_once_lem c in
      let same : d.is_closing_intentionally ≡ c.is_closing_intentionally = (rw failed at kept).0 in
      (
        cleared,
        record { connection_is = refl; channel_is = refl; connected_is = refl },
        same,
        λ stop. rw (failed, cleaned, stop),
        λ go. (pause amqp options wait cleared, same, rw (failed, cleaned, go)),
      )

  connect_loop-Ends :
      (rounds attempt : ℕ) (c : RabbitMqConnection W C K)
      → attempt + rounds ≡ max_attempts amqp options wait + 1
      → 1 ≤ rounds
      → let (r, d) = connect_loop amqp options wait rounds attempt c in
        Ends r d × (d.is_closing_intentionally ≡ c.is_closing_intentionally)
  connect_loop-Ends zero attempt c left some_left = absurd (omega arith)
  connect_loop-Ends (suc rounds) attempt c left some_left =
      elim (settled (connect_once amqp options wait c)) [
        | inl (k, d, e) ↦
            let kept = connect_once_lem c in
            let (same, opened) = (rw e at kept) in unfold connect_loop in rw e (opened k refl, same)
        | inr (x, d, e) ↦
            let (f, clear, same, stop, go) = connect_loop-failed rounds attempt c d x e in
            elim (Bool-cases (stops attempt d)) [
              | inl last ↦ rw (stop last) (clear, same)
              | inr more ↦
                  let (g, kept, again) = go more in
                  let not_last : 1 ≤ rounds = ground arith in
                  let (ends, then_kept) =
                    connect_loop-Ends rounds (attempt + 1) g (omega arith) not_last in
                  rw again (ends, then_kept ∙ kept)
            ]
      ]

  -- However the broker answers, `connect` with at least one attempt leaves the object in one of two
  -- states: it returned a channel, and the object holds that channel and a connection and is
  -- connected; or it threw, and nothing is held and it is not connected. Whether the object is being
  -- closed stays as it was.
  pub connect-Ends :
      (c : RabbitMqConnection W C K)
      → 1 ≤ max_attempts amqp options wait
      → let (r, d) = connect amqp options wait c in
        Ends r d × (d.is_closing_intentionally ≡ c.is_closing_intentionally)
  unfolding connect
  connect-Ends c allowed =
      connect_loop-Ends (max_attempts amqp options wait) 1 c (omega arith) allowed

  pub connect-IsOpen :
      (c d : RabbitMqConnection W C K) (k : K)
      → 1 ≤ max_attempts amqp options wait
      → connect amqp options wait c ≡ (ok k, d)
      → IsOpen k d
  connect-IsOpen c d k allowed h = let ends = connect-Ends c allowed in (rw h at ends).0
