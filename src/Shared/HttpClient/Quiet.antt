-- ===== src/Shared/HttpClient/Quiet.antt =====
-- A call leaves alone what its requests, its pauses and its log lines leave alone.
use ecommerce_microservice.Prelude.{
  ℕ, zero, suc, ◌+◌, ◌*◌, ◌^◌, String, ◌≡◌, refl, ◌∙◌, inl, inr, Bool-cases, Option, none, some,
  ◌==◌,
}
use ecommerce_microservice.Shared.Errors.{Error, is_upstream}
use ecommerce_microservice.Shared.Action.{Action, settled}
use ecommerce_microservice.Shared.Logger.{LogLevel}
use ecommerce_microservice.Shared.Headers.{Headers}
use ecommerce_microservice.Shared.Leaves.{Leaves, LeavesLogging}
use ecommerce_microservice.Shared.HttpClient.{
  HttpClient, HttpRequest, Transport, Method, is_client_error, retry_message, back_off, as_upstream,
  retry_loop, execute_with_retry, fire_breaker, call, build_headers,
}

module _ {W X : Type 0} (view : W → X) (c : HttpClient W) (logs : LeavesLogging view c.logger)
    (waits : (n : ℕ) (w : W) → view (c.wait n w) ≡ view w) where
  module _ {T : Type 0} (request : Action W T) (sends : Leaves view request) where
    retry_loop-Leaves :
        (rounds attempt : ℕ) (last : Option Error)
        → Leaves view (retry_loop c request rounds attempt last)
    unfolding retry_loop
    retry_loop-Leaves zero attempt last w = refl
    retry_loop-Leaves (suc rounds) attempt last w =
        let same = sends w in
        let next = retry_loop-Leaves rounds (attempt + 1) in
        elim (settled (request w)) [
          | inl (a, u, e) ↦ rw e (rw e at same)
          | inr (x, u, e) ↦ elim (Bool-cases (is_client_error x)) [
            | inl client ↦ rw (e, client) (rw e at same)
            | inr passing ↦ elim (Bool-cases (attempt == c.max_retries)) [
              | inl last_one ↦ rw (e, passing, last_one) (rw e at same)
              | inr more ↦
                  rw (e, passing, more)
                    (next (some x) (back_off c attempt u)
                      ∙ waits (200 * 2 ^ attempt) (c.logger LogLevel.warn retry_message u)
                      ∙ logs LogLevel.warn retry_message u
                      ∙ (rw e at same))
            ]
          ]
        ]

    as_upstream-Leaves : (x : Error) → Leaves view (as_upstream {T = T} c x)
    as_upstream-Leaves x w = elim (Bool-cases (is_upstream x)) [
      | inl upstream ↦ rw upstream refl
      | inr other ↦ rw other refl
    ]

  pub call-Leaves :
      {B T : Type 0} (t : Transport W B T)
      → ((m : Action W T) (w : W) → t.fire m w ≡ m w)
      → ((r : HttpRequest B) → Leaves view (t.send r))
      → (m : Method) (path : String) (body : B) (correlation_id : Option String) (given : Headers)
      → Leaves view (call m c t path body correlation_id given)
  unfolding call fire_breaker execute_with_retry
  call-Leaves t closed sends m path body correlation_id given w =
      let r : HttpRequest _ = record {
        method = m;
        path = path;
        body = body;
        headers = build_headers c correlation_id given;
      } in
      let run = retry_loop c (t.send r) (suc c.max_retries) 0 none in
      let same = retry_loop-Leaves (t.send r) (sends r) (suc c.max_retries) 0 none w in
      elim (settled (run w)) [
        | inl (a, u, e) ↦ rw (closed run w, e) (rw e at same)
        | inr (x, u, e) ↦
            rw (closed run w, e) (as_upstream-Leaves (t.send r) (sends r) x u ∙ (rw e at same))
      ]
