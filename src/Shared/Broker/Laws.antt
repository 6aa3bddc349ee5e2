-- ===== src/Shared/Broker/Laws.antt =====
-- shared/src/rabbitmq/Consumer.ts: every message that is consumed is settled.
use ecommerce_microservice.Prelude.{ℕ, ◌+◌, ◌≡◌, refl, inl, inr, String, arith}
use ecommerce_microservice.Shared.Errors.{Error}
use ecommerce_microservice.Shared.Action.{Outcome, ok, throw, Action, settled}
use ecommerce_microservice.Shared.Logger.{Logger, LogLevel}
use ecommerce_microservice.Shared.Broker.{Delivery, dlq_message, handle_message}

module _ {W P : Type 0} (logger : Logger W) (d : Delivery W) (handler : P → Action W (Unit {0}))
    (settles : W → ℕ) (handles : (payload : P) (w : W) → settles (handler payload w).1 ≡ settles w)
    (logs : (l : LogLevel) (m : String) (w : W) → settles (logger l m w) ≡ settles w)
    (ack : (w : W) → (v : W) × (d.ack w ≡ (ok tt, v)) × (settles v ≡ settles w + 1))
    (nack : (w : W) → (v : W) × (d.nack w ≡ (ok tt, v)) × (settles v ≡ settles w + 1)) where
  rejected-settles_once :
      (x : Error) (w u : W)
      → settles u ≡ settles w
      → settles (d.nack (logger LogLevel.error dlq_message u)).1 ≡ settles w + 1
  rejected-settles_once x w u kept =
      let v = logger LogLevel.error dlq_message u in
      let logged = logs LogLevel.error dlq_message u in
      let (z, e, counted) = nack v in rw e (omega arith)

  -- A message is settled exactly once, by an ack or by a nack, whether its body parses or not and
  -- whether the handler returns or throws: `settles` counts the acks and nacks of a channel on which
  -- these succeed, and neither the handler nor the log adds to it.
  pub handle_message-settles_once :
      (parsed : Outcome P) (w : W)
      → settles (handle_message logger d parsed handler w).1 ≡ settles w + 1
  unfolding handle_message
  handle_message-settles_once (throw x) w = rejected-settles_once x w w refl
  handle_message-settles_once (ok payload) w =
      let handled = handles payload w in
      elim (settled (handler payload w)) [
        | inl (done, u, e) ↦
            let kept : settles u ≡ settles w = (rw e at handled) in
            let (v, f, counted) = ack u in rw (e, f) (omega arith)
        | inr (x, u, e) ↦
            let kept : settles u ≡ settles w = (rw e at handled) in
            rw e (rejected-settles_once x w u kept)
      ]
