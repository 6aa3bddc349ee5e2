-- ===== src/Shared/Tests.antt =====
-- The shared library at work: a request that fails twice, a channel that counts, a guarded handler.
use ecommerce_microservice.Prelude.{
  ℕ, ◌+◌, ◌≤◌, String, ◌≡◌, refl, true, none, some, [], ◌∷◌, ltb, if◌then◌else◌, arith,
}
use ecommerce_microservice.Shared.Errors.{Error, foreign, ForeignError, is_upstream}
use ecommerce_microservice.Shared.Json.{null}
use ecommerce_microservice.Shared.Action.{ok, throw, Action}
use ecommerce_microservice.Shared.Logger.{Logger}
use ecommerce_microservice.Shared.Headers.{Headers}
use ecommerce_microservice.Shared.HttpClient.{
  Method, HttpClient, Transport, build_headers, upstream_of, retry_loop, execute_with_retry,
  fire_breaker, call,
}
use ecommerce_microservice.Shared.HttpClient.Retry.{
  Retried, start, again, execute_with_retry-refused, execute_with_retry-ok,
  execute_with_retry-calls,
}
use ecommerce_microservice.Shared.HttpClient.Failures.{call-throws_upstream}
use ecommerce_microservice.Shared.ErrorHandler.{Reply, success, async_handler}
use ecommerce_microservice.Shared.ErrorHandler.Laws.{async_handler-no_leak}
use ecommerce_microservice.Shared.Middleware.{guarded, internal_auth}
use ecommerce_microservice.Shared.Middleware.Laws.{internal_auth-accepts_client}
use ecommerce_microservice.Shared.Broker.{Delivery, handle_message}
use ecommerce_microservice.Shared.Broker.Laws.{handle_message-settles_once}

abbrev silent : Logger ℕ
silent level message w = w

-- The world counts the requests.
abbrev client : ℕ → HttpClient ℕ
client retries = record {
  service_name = "product-service";
  max_retries = retries;
  internal_api_key = some "secret";
  logger = silent;
  wait = λ n w. w;
}

abbrev reset_error : ForeignError
reset_error = record { message = "ECONNRESET"; code = none; response = none }

abbrev gone_error : ForeignError
gone_error = record {
  message = "Request failed with status code 404";
  code = none;
  response = some (record { status = 404; payload = null });
}

abbrev flaky : Action ℕ String
flaky n = if ltb n 2 then (throw (foreign reset_error), n + 1) else (ok "lamp", n + 1)

abbrev then_gone : Action ℕ String
then_gone n = (throw (foreign (if ltb n 1 then reset_error else gone_error)), n + 1)

abbrev gone : Action ℕ String
gone n = (throw (foreign gone_error), n + 1)

twice : Retried (client 3) flaky 0 2 2
twice =
    again {v = 2} (foreign reset_error) (again {v = 1} (foreign reset_error) start refl refl) refl
      refl

execute_with_retry-ok_example : execute_with_retry (client 3) flaky 0 ≡ (ok "lamp", 3)
execute_with_retry-ok_example =
    execute_with_retry-ok (client 3) flaky 2 "lamp" twice (omega arith) refl

after_reset : Retried (client 3) then_gone 0 1 1
after_reset = again {v = 1} (foreign reset_error) start refl refl

gone_is_refused :
    execute_with_retry (client 3) then_gone 0
    ≡ (throw (upstream_of (client 3) (some (foreign gone_error))), 2)
gone_is_refused =
    execute_with_retry-refused (client 3) then_gone 1 (foreign gone_error) after_reset (omega arith)
      refl refl

flaky-one : (w : ℕ) → (flaky w).1 ≤ w + 1
flaky-one w = ground arith

execute_with_retry-calls_example : (execute_with_retry (client 3) flaky 0).1 ≤ 0 + 3 + 1
execute_with_retry-calls_example =
    execute_with_retry-calls (client 3) flaky (λ n. n) flaky-one (λ n w. refl) 0

abbrev gone_line : Transport ℕ (Unit {0}) String
gone_line = record { send = λ r n. gone n; fire = λ m. m }

abbrev gone_upstream : Error
gone_upstream = upstream_of (client 3) (some (foreign gone_error))

call_gone :
    call Method.get (client 3) gone_line "/products/001" tt none [] 0 ≡ (throw gone_upstream, 1)
unfolding call fire_breaker execute_with_retry retry_loop
call_gone = refl

gone_is_upstream : is_upstream gone_upstream ≡ true
gone_is_upstream =
    call-throws_upstream (client 3) gone_line Method.get "/products/001" tt none [] 0 call_gone

abbrev failing : ForeignError → Action ℕ (Reply String)
failing e n = (throw (foreign e), n)

async_handler-no_leak_example :
    (async_handler silent none (failing reset_error) 0).0
    ≡ (async_handler silent none (failing gone_error) 5).0
async_handler-no_leak_example =
    async_handler-no_leak silent none (failing reset_error) (failing gone_error) reset_error
      gone_error 0 0 5 5 refl refl

abbrev counted : Action ℕ (Reply String)
counted n = (ok (success 200 "done"), n + 1)

abbrev guess : Headers
guess = ("x-internal-api-key", "guess") ∷ []

own_client_accepted :
    guarded (internal_auth "secret" (build_headers (client 3) none [])) counted 0
    ≡ (ok (success 200 "done"), 1)
own_client_accepted = internal_auth-accepts_client counted (client 3) "secret" none [] 0 refl refl

abbrev delivery : Delivery ℕ
delivery = record { ack = λ n. (ok tt, n + 1); nack = λ n. (ok tt, n + 1) }

abbrev rejecting : String → Action ℕ (Unit {0})
rejecting payload n = (throw (foreign reset_error), n)

handle_message-settles_once_example :
    (handle_message silent delivery (ok "event") rejecting 0).1 ≡ 0 + 1
handle_message-settles_once_example =
    handle_message-settles_once silent delivery rejecting (λ n. n) (λ payload w. refl)
      (λ l m w. refl) (λ w. (w + 1, refl, refl)) (λ w. (w + 1, refl, refl)) (ok "event") 0
