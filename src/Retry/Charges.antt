-- ===== src/Retry/Charges.antt =====
-- How often the life of one retry event calls the payment service.
use ecommerce_microservice.Prelude.{
  ℕ, zero, suc, ◌+◌, ◌*◌, ◌≤◌, ◌≡◌, refl, ap, Bool-cases, inl, inr, String, arith,
}
use ecommerce_microservice.Shared.Errors.{Error, is_upstream}
use ecommerce_microservice.Shared.Action.{ok, Action, settled}
use ecommerce_microservice.Shared.Broker.{Delivery, dlq_message, handle_message}
use ecommerce_microservice.Shared.Topology.{retry_delay_ms}
use ecommerce_microservice.Shared.Logger.{LogLevel}
use ecommerce_microservice.Shared.Dtos.{
  PaymentRetryRequestedEvent, InitiatePaymentRequest, UpdateOrderPaymentStatusRequest,
}
use ecommerce_microservice.Retry.Processor.{
  PaymentRetryProcessor, request_of, mark_confirmed, mark_failed, succeeded_message, again_message,
  exhausted_message, stuck_message, next_event, attempts_remaining, attempt_payment, schedule_again,
  give_up, handle,
}
use ecommerce_microservice.Retry.Cycle.{delayed, retry_cycle, retry_cycle-three}

module _ {W : Type 0} (p : PaymentRetryProcessor W) (d : Delivery W) (wait : ℕ → W → W) where
  -- The frame: `payments` counts the requests to the payment service, of which one call of the payment
  -- client sends at most `most`, with the repetitions of its HTTP client.
  module _ (payments : W → ℕ) (most : ℕ)
      (pays : (r : InitiatePaymentRequest) (w : W)
        → payments (p.initiate_payment r w).1 ≤ payments w + most)
      (updates : (id : String) (u : UpdateOrderPaymentStatusRequest) (w : W)
        → payments (p.update_payment_status id u w).1 ≡ payments w)
      (logs : (l : LogLevel) (m : String) (w : W) → payments (p.logger l m w) ≡ payments w)
      (waits : (n : ℕ) (w : W) → payments (wait n w) ≡ payments w)
      (acks : (w : W) → payments (d.ack w).1 ≡ payments w)
      (nacks : (w : W) → payments (d.nack w).1 ≡ payments w) where
    attempt-pays :
        (event : PaymentRetryRequestedEvent) (w : W)
        → payments (attempt_payment p event w).1 ≤ payments w + most
    unfolding attempt_payment
    attempt-pays event w =
        let paid = pays (request_of event) w in
        elim (settled (p.initiate_payment (request_of event) w)) [
          | inr (x, u, e) ↦ rw e (rw e at paid)
          | inl (r, u, e) ↦
              let first : payments u ≤ payments w + most = (rw e at paid) in
              let updated = updates event.order_id mark_confirmed u in
              elim (settled (p.update_payment_status event.order_id mark_confirmed u)) [
                | inr (x, v, f) ↦
                    let kept : payments v ≡ payments u = (rw f at updated) in
                    rw (e, f) (omega arith)
                | inl (done, v, f) ↦
                    let kept : payments v ≡ payments u = (rw f at updated) in
                    rw (e, f) (omega (arith, logs LogLevel.info succeeded_message v))
              ]
        ]

    attempt-delayed :
        (f : PaymentRetryRequestedEvent → Action W (Unit {0})) (event : PaymentRetryRequestedEvent)
        (w : W)
        → attempt_payment (delayed p d wait f) event w ≡ attempt_payment p event w
    unfolding attempt_payment
    attempt-delayed f event w = refl

    send-pays :
        (f : PaymentRetryRequestedEvent → Action W (Unit {0})) (m : ℕ)
        → ((e : PaymentRetryRequestedEvent) (w : W) → payments (f e w).1 ≤ payments w + m)
        → (event : PaymentRetryRequestedEvent) (u w : W) → payments u ≤ payments w + most
        → payments (schedule_again (delayed p d wait f) event u).1 ≤ payments w + m + most
    unfolding schedule_again
    send-pays f m sends event u w once =
        let logged = logs LogLevel.warn again_message u in
        let v = wait retry_delay_ms (p.logger LogLevel.warn again_message u) in
        let waited = waits retry_delay_ms (p.logger LogLevel.warn again_message u) in
        let sent = sends (next_event event) v in
        elim (settled (f (next_event event) v)) [
          | inl (done, z, e) ↦
              let last : payments z ≤ payments v + m = (rw e at sent) in rw e (omega arith)
          | inr (x, z, e) ↦
              let last : payments z ≤ payments v + m = (rw e at sent) in rw e (omega arith)
        ]

    give_up-pays :
        (event : PaymentRetryRequestedEvent) (x : Error) (m : ℕ) (u w : W)
        → payments u ≤ payments w + most
        → payments (give_up p event x u).1 ≤ payments w + m + most
    unfolding give_up
    give_up-pays event x m u w once =
        let logged = logs LogLevel.error exhausted_message u in
        let v = p.logger LogLevel.error exhausted_message u in
        let updated = updates event.order_id mark_failed v in
        elim (settled (p.update_payment_status event.order_id mark_failed v)) [
          | inl (done, z, e) ↦
              let kept : payments z ≡ payments v = (rw e at updated) in rw e (omega arith)
          | inr (y, z, e) ↦
              let kept : payments z ≡ payments v = (rw e at updated) in
              rw e (omega (arith, logs LogLevel.error stuck_message z))
        ]

    -- A delivery pays once, besides what the event that it sends does.
    handle-pays :
        (f : PaymentRetryRequestedEvent → Action W (Unit {0})) (m : ℕ)
        → ((e : PaymentRetryRequestedEvent) (w : W) → payments (f e w).1 ≤ payments w + m)
        → (event : PaymentRetryRequestedEvent) (w : W)
        → payments (handle (delayed p d wait f) event w).1 ≤ payments w + m + most
    unfolding handle schedule_again give_up
    handle-pays f m sends event w =
        let tried = attempt-pays event w in
        elim (settled (attempt_payment p event w)) [
          | inl (done, u, e) ↦
              let once : payments u ≤ payments w + most = (rw e at tried) in
              rw (attempt-delayed f event w, e) (omega arith)
          | inr (x, u, e) ↦
              let once : payments u ≤ payments w + most = (rw e at tried) in
              elim (Bool-cases (is_upstream x)) [
                | inr other ↦ rw (attempt-delayed f event w, e, other) (omega arith)
                | inl upstream ↦ elim (Bool-cases (attempts_remaining event)) [
                  | inl left ↦
                      rw (attempt-delayed f event w, e, upstream, left)
                        (send-pays f m sends event u w once)
                  | inr spent ↦
                      rw (attempt-delayed f event w, e, upstream, spent)
                        (give_up-pays event x m u w once)
                ]
              ]
        ]

    delivery-pays :
        (n : ℕ) (h : PaymentRetryRequestedEvent → Action W (Unit {0}))
        → ((e : PaymentRetryRequestedEvent) (w : W) → payments (h e w).1 ≤ payments w + n)
        → (event : PaymentRetryRequestedEvent) (w : W)
        → payments (handle_message p.logger d (ok event) h w).1 ≤ payments w + n
    unfolding handle_message
    delivery-pays n h pays_n event w =
        let handled = pays_n event w in
        elim (settled (h event w)) [
          | inl (done, u, e) ↦
              let most : payments u ≤ payments w + n = (rw e at handled) in
              let after = acks u in
              elim (settled (d.ack u)) [
                | inl (acked, v, f) ↦
                    let kept : payments v ≡ payments u = (rw f at after) in rw (e, f) (omega arith)
                | inr (x, v, f) ↦
                    let kept : payments v ≡ payments u = (rw f at after) in
                    rw (e, f)
                      (omega (
                        arith,
                        logs LogLevel.error dlq_message v,
                        nacks (p.logger LogLevel.error dlq_message v),
                      ))
              ]
          | inr (x, u, e) ↦
              let most : payments u ≤ payments w + n = (rw e at handled) in
              rw e (
                omega (
                  arith,
                  logs LogLevel.error dlq_message u,
                  nacks (p.logger LogLevel.error dlq_message u),
                ))
        ]

    -- `n` rounds of a delivery.
    abbrev rounds : ℕ → ℕ
    rounds zero = 0
    rounds (suc n) = rounds n + most

    retry_cycle_bound :
        (n : ℕ) (event : PaymentRetryRequestedEvent) (w : W)
        → payments (retry_cycle p d wait n event w).1 ≤ payments w + rounds n
    unfolding retry_cycle
    retry_cycle_bound zero event w = omega arith
    retry_cycle_bound (suc n) event w =
        delivery-pays (rounds n + most) (handle (delayed p d wait (retry_cycle p d wait n)))
          (λ e u.
            let paid = handle-pays (retry_cycle p d wait n) (rounds n) (retry_cycle_bound n) e u in
            omega arith)
          event w

    -- A retry event that has counted at least one attempt leads to at most three times the requests to the
    -- payment service that one call of the payment client sends at most, however many rounds the broker
    -- would still deliver, if nothing else sends such requests.
    pub retry_cycle-pays :
        (k : ℕ) (event : PaymentRetryRequestedEvent) (w : W)
        → 1 ≤ event.attempts
        → payments (retry_cycle p d wait (k + 3) event w).1 ≤ payments w + 3 * most
    retry_cycle-pays k event w first =
        let least : payments (retry_cycle p d wait 3 event w).1
            ≤ payments w + (0 + most + most + most) =
          retry_cycle_bound 3 event w in
        rw (ap (λ run. run w) (retry_cycle-three p d wait k event first)) (omega arith)
