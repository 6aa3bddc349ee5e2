-- ===== src/Shared/HttpClient/Answers.antt =====
-- Where the answer of a call of shared/src/http/HttpClient.ts comes from.
use ecommerce_microservice.Prelude.{
  ℕ, zero, suc, ◌+◌, String, ◌≡◌, sym, ◌∙◌, ◌==◌, Bool-cases, inl, inr, Option, some,
}
use ecommerce_microservice.Shared.Errors.{Error, is_upstream}
use ecommerce_microservice.Shared.Action.{Outcome, ok, throw, Action, resume, settled}
use ecommerce_microservice.Shared.Headers.{Headers}
use ecommerce_microservice.Shared.HttpClient.{
  Method, HttpClient, Transport, is_client_error, back_off, as_upstream, build_headers, retry_loop,
  execute_with_retry, call,
}

module _ {W T : Type 0} (c : HttpClient W) where
  retry_loop-answered :
      (request : Action W T) (rounds n : ℕ) (last : Option Error) (a : T) (w w' : W)
      → retry_loop c request rounds n last w ≡ (ok a, w')
      → (u : W) × (request u ≡ (ok a, w'))
  unfolding retry_loop
  retry_loop-answered request zero n last a w w' h = cc
  retry_loop-answered request (suc rounds) n last a w w' h = elim (settled (request w)) [
    | inl (b, u, e) ↦ (w, e ∙ (rw e at h))
    | inr (x, u, e) ↦ elim (Bool-cases (is_client_error x)) [
      | inl client ↦ absurd (let bad = (rw (e, client) at h) in cc)
      | inr passing ↦ elim (Bool-cases (n == c.max_retries)) [
        | inl over ↦ absurd (let bad = (rw (e, passing, over) at h) in cc)
        | inr more ↦
            retry_loop-answered request rounds (n + 1) (some x) a (back_off c n u) w'
              (rw (e, passing, more) at h)
      ]
    ]
  ]

  as_upstream-fails :
      (p : Outcome T × W) {a : T} {w : W} → resume p (as_upstream c) ≡ (ok a, w) → p ≡ (ok a, w)
  as_upstream-fails (ok b, u) h = h
  as_upstream-fails (throw f, u) h = elim (Bool-cases (is_upstream f)) [
    | inl upstream ↦ absurd (let bad = (rw upstream at h) in cc)
    | inr other ↦ absurd (let bad = (rw other at h) in cc)
  ]

module _ {W B T : Type 0} (c : HttpClient W) (t : Transport W B T)
    (closed : (m : Action W T) (w : W) → t.fire m w ≡ m w) where
  -- With the breaker closed, the answer of a call is the answer of one of its requests.
  pub call-answered :
      (m : Method) (path : String) (body : B) (correlation_id : Option String) (given : Headers)
      (a : T) (w w' : W)
      → call m c t path body correlation_id given w ≡ (ok a, w')
      → (u : W) × (t.send
            (record {
              method = m;
              path = path;
              body = body;
              headers = build_headers c correlation_id given;
            })
            u
          ≡ (ok a, w'))
  unfolding call execute_with_retry
  call-answered m path body correlation_id given a w w' h =
      let request = t.send (record {
        method = m;
        path = path;
        body = body;
        headers = build_headers c correlation_id given;
      }) in
      let fired = as_upstream-fails c (t.fire (execute_with_retry c request) w) h in
      let looped = sym (closed (execute_with_retry c request) w) ∙ fired in
      retry_loop-answered c request (suc c.max_retries) 0 _ a w w' looped
