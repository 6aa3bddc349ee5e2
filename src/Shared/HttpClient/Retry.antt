-- ===== src/Shared/HttpClient/Retry.antt =====
-- The retry loop of shared/src/http/HttpClient.ts against a description of its attempts.
use ecommerce_microservice.Prelude.{
  ℕ, zero, suc, ◌+◌, ◌≤◌, ◌<◌, ◌≡◌, true, false, Option, none, some, arith, ◌∙◌, ◌-◌, ◌==◌,
  Bool-cases, inl, inr,
}
use ecommerce_microservice.Shared.Errors.{Error}
use ecommerce_microservice.Shared.Action.{ok, throw, Action, Outcome-cases}
use ecommerce_microservice.Shared.HttpClient.{
  HttpClient, is_client_error, upstream_of, back_off, retry_loop, execute_with_retry,
}

module _ {W T : Type 0} (c : HttpClient W) (request : Action W T) where
  -- `n` attempts from `w` that failed for a passing reason, each with its pause, lead to `u`.
  pub data Retried (w : W) : ℕ → W → Type 0 where
    start : Retried w 0 w
    again :
        {n : ℕ} {u v : W} (e : Error)
        → Retried w n u
        → request u ≡ (throw e, v)
        → is_client_error e ≡ false
        → Retried w (suc n) (back_off c n v)

  -- One failed round before the last: the loop goes on after the pause.
  retry_loop-again :
      (rounds n : ℕ) (last : Option Error) (e : Error) {u v : W}
      → n < c.max_retries
      → request u ≡ (throw e, v)
      → is_client_error e ≡ false
      → retry_loop c request (suc rounds) n last u
        ≡ retry_loop c request rounds (n + 1) (some e) (back_off c n v)
  unfolding retry_loop
  retry_loop-again rounds n last e lt failed passing =
      let more : (n == c.max_retries) ≡ false = ground arith in rw (failed, passing, more)

  -- After `n` failed attempts the loop stands at attempt `n` with the rest of its rounds.
  Retried-rounds :
      {w : W} (n : ℕ) {u : W}
      → Retried w n u
      → n ≤ c.max_retries
      → (last : Option Error) × (execute_with_retry c request w
          ≡ retry_loop c request (suc (c.max_retries - n)) n last u)
  unfolding execute_with_retry
  Retried-rounds {w} zero start le =
      (none, let full : c.max_retries - 0 ≡ c.max_retries = omega arith in rw full)
  Retried-rounds (suc n) (again {u} {v} e r failed passing) le =
      let (last, same) = Retried-rounds n r (omega arith) in
      (
        some e,
        same
            ∙ retry_loop-again (c.max_retries - n) n last e (omega arith) failed passing
            ∙ let rounds : c.max_retries - n ≡ suc (c.max_retries - suc n) = omega arith in
              let next : n + 1 ≡ suc n = omega arith in rw (rounds, next),
      )

  -- A client error ends the loop at once, whatever rounds are left.
  pub execute_with_retry-client_error :
      (e : Error) {w w' : W}
      → request w ≡ (throw e, w')
      → is_client_error e ≡ true
      → execute_with_retry c request w ≡ (throw (upstream_of c (some e)), w')
  unfolding execute_with_retry retry_loop
  execute_with_retry-client_error e failed client = rw (failed, client)

  -- Attempts that fail for a passing reason, no more of them than the retries allowed, and then an
  -- answer: the call returns that answer, in the world that the answer left.
  pub execute_with_retry-ok :
      {w : W} (n : ℕ) {u v : W} (a : T)
      → Retried w n u
      → n ≤ c.max_retries
      → request u ≡ (ok a, v)
      → execute_with_retry c request w ≡ (ok a, v)
  unfolding retry_loop
  execute_with_retry-ok n a r le answered =
      let (last, same) = Retried-rounds n r le in same ∙ rw answered

  -- A client error after some passing failures ends the call at once: it throws an
  -- UpstreamServiceError with that error's message and answer, whatever retries are left.
  pub execute_with_retry-refused :
      {w : W} (n : ℕ) {u v : W} (e : Error)
      → Retried w n u
      → n ≤ c.max_retries
      → request u ≡ (throw e, v)
      → is_client_error e ≡ true
      → execute_with_retry c request w ≡ (throw (upstream_of c (some e)), v)
  unfolding retry_loop
  execute_with_retry-refused n e r le failed client =
      let (last, same) = Retried-rounds n r le in same ∙ rw (failed, client)

-- `calls` counts the requests that were sent: one attempt sends at most one, a pause sends none.
module _ {W T : Type 0} (c : HttpClient W) (request : Action W T) (calls : W → ℕ)
    (one_call : (w : W) → calls (request w).1 ≤ calls w + 1)
    (no_call : (n : ℕ) (w : W) → calls (back_off c n w) ≡ calls w) where
  retry_loop-calls :
      (rounds n : ℕ) (last : Option Error) (w : W)
      → calls (retry_loop c request rounds n last w).1 ≤ calls w + rounds
  unfolding retry_loop
  retry_loop-calls zero n last w = omega arith
  retry_loop-calls (suc rounds) n last w = elim (Outcome-cases (request w)) [
    | inl (a, answered) ↦ rw answered (omega (arith, one_call w))
    | inr (e, failed) ↦ elim (Bool-cases (is_client_error e)) [
      | inl client ↦ rw (failed, client) (omega (arith, one_call w))
      | inr passing ↦ elim (Bool-cases (n == c.max_retries)) [
        | inl over ↦ rw (failed, passing, over) (omega (arith, one_call w))
        | inr more ↦
            rw (failed, passing, more)
              (omega (
                arith,
                one_call w,
                no_call n (request w).1,
                retry_loop-calls rounds (n + 1) (some e) (back_off c n (request w).1),
              ))
      ]
    ]
  ]

  -- One call of the client sends at most one request more than the retries allowed.
  pub execute_with_retry-calls :
      (w : W) → calls (execute_with_retry c request w).1 ≤ calls w + c.max_retries + 1
  unfolding execute_with_retry
  execute_with_retry-calls w = omega (arith, retry_loop-calls (suc c.max_retries) 0 none w)
