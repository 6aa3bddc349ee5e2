-- ===== src/Retry/Cycle.antt =====
-- The life of a retry event: the worker consumes it, and what it puts into the delay queue comes
-- back to it after the queue's time to live. The rounds are bounded by fuel; four are always enough.
use ecommerce_microservice.Prelude.{
  ℕ, zero, suc, ◌+◌, ◌≤◌, ◌≡◌, refl, ap, sym, ◌∙◌, true, Bool-cases, inl, inr, none, arith,
}
use mathlib.Core.Path.{fun_ext}
use ecommerce_microservice.Shared.Errors.{Error, foreign, is_upstream}
use ecommerce_microservice.Shared.Action.{ok, Action, pure, raise, settled, bind}
use ecommerce_microservice.Shared.Broker.{Delivery, handle_message}
use ecommerce_microservice.Shared.Topology.{retry_delay_ms}
use ecommerce_microservice.Shared.Dtos.{PaymentRetryRequestedEvent}
use ecommerce_microservice.Retry.Processor.{
  PaymentRetryProcessor, next_event, attempts_remaining, attempt_payment, schedule_again, give_up,
  handle,
}

abbrev pub out_of_fuel : Error
out_of_fuel = foreign (record { message = "out of fuel"; code = none; response = none })

module _ {W : Type 0} (p : PaymentRetryProcessor W) (d : Delivery W) (wait : ℕ → W → W) where
  -- The worker whose messages to the delay queue are delivered by `next` after the delay. The delivery
  -- is run where the message is sent, so before the one that sent it is acknowledged.
  abbrev pub delayed : (PaymentRetryRequestedEvent → Action W (Unit {0})) → PaymentRetryProcessor W
  delayed next = record p {
    send_to_queue = λ queue event w. bind (next event (wait retry_delay_ms w)) (λ _. pure true);
  }

  unfoldable pub retry_cycle : ℕ → PaymentRetryRequestedEvent → Action W (Unit {0})
  retry_cycle zero event = raise out_of_fuel
  retry_cycle (suc fuel) event =
      handle_message p.logger d (ok event) (handle (delayed (retry_cycle fuel)))

  module _ (f g : PaymentRetryRequestedEvent → Action W (Unit {0})) where
    -- The handler sends nothing but the next event, and that only with attempts left.
    handle-delayed :
        (event : PaymentRetryRequestedEvent) (w : W)
        → (attempts_remaining event ≡ true → f (next_event event) ≡ g (next_event event))
        → handle (delayed f) event w ≡ handle (delayed g) event w
    unfolding handle schedule_again attempt_payment give_up
    handle-delayed event w same = elim (settled (attempt_payment p event w)) [
      | inl (done, u, e) ↦ rw e
      | inr (x, u, e) ↦ elim (Bool-cases (is_upstream x)) [
        | inr other ↦ rw (e, other)
        | inl upstream ↦ elim (Bool-cases (attempts_remaining event)) [
          | inr spent ↦ rw (e, upstream, spent)
          | inl left ↦ rw (e, upstream, left, same left)
        ]
      ]
    ]

  -- One round more changes nothing once the rounds reach past the last attempt.
  retry_cycle-more :
      (n : ℕ) (event : PaymentRetryRequestedEvent)
      → 4 ≤ event.attempts + suc n
      → retry_cycle (suc n) event ≡ retry_cycle (suc (suc n)) event
  unfolding retry_cycle handle_message
  retry_cycle-more zero event enough = fun_ext λ w.
      rw (handle-delayed (retry_cycle 0) (retry_cycle 1) event w (λ left. absurd (ground arith)))
  retry_cycle-more (suc n) event enough = fun_ext λ w. rw (
      handle-delayed (retry_cycle (suc n)) (retry_cycle (suc (suc n))) event w
        (λ left. retry_cycle-more n (next_event event) (ground arith)))

  -- An event that counts its attempts from one is done with after three deliveries: more rounds
  -- change nothing.
  pub retry_cycle-three :
      (k : ℕ) (event : PaymentRetryRequestedEvent)
      → 1 ≤ event.attempts
      → retry_cycle (k + 3) event ≡ retry_cycle 3 event
  retry_cycle-three zero event first = ap (λ n. retry_cycle n event) three
    where
      three : 0 + 3 ≡ 3
      three = refl
  retry_cycle-three (suc k) event first =
      let shifted : suc k + 3 ≡ suc (suc (k + 2)) = omega arith in
      let back : suc (k + 2) ≡ k + 3 = omega arith in
      ap (λ n. retry_cycle n event) shifted
      ∙ sym (retry_cycle-more (k + 2) event (omega arith))
      ∙ ap (λ n. retry_cycle n event) back
      ∙ retry_cycle-three k event first
