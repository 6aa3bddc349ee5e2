-- ===== src/Shared/HttpClient/Failures.antt =====
-- What a call of shared/src/http/HttpClient.ts can throw, and the headers that it sends.
use ecommerce_microservice.Prelude.{String, ◌≡◌, true, Option, some, arith}
use ecommerce_microservice.Shared.Errors.{Error, is_upstream}
use ecommerce_microservice.Shared.Action.{Outcome, ok, throw, resume}
use ecommerce_microservice.Shared.Headers.{
  Headers, header, truthy, internal_api_key_header, header-set_header_self,
}
use ecommerce_microservice.Shared.HttpClient.{
  Method, HttpClient, Transport, as_upstream, build_headers, call,
}

module _ {W T : Type 0} (c : HttpClient W) where
  as_upstream-throws :
      (p : Outcome T × W) {e : Error} {w : W}
      → resume p (as_upstream c) ≡ (throw e, w)
      → is_upstream e ≡ true
  as_upstream-throws (ok a, u) h = cc
  as_upstream-throws (throw f, u) h = ground arith

module _ {W B T : Type 0} (c : HttpClient W) (t : Transport W B T) where
  -- Whatever the network, axios and the breaker do, a call that fails throws an
  -- UpstreamServiceError: no other error leaves the client.
  pub call-throws_upstream :
      (m : Method) (path : String) (body : B) (correlation_id : Option String) (given : Headers)
      (w : W) {e : Error} {w' : W}
      → call m c t path body correlation_id given w ≡ (throw e, w')
      → is_upstream e ≡ true
  unfolding call
  call-throws_upstream m path body correlation_id given w h = as_upstream-throws c _ h

module _ {W : Type 0} (c : HttpClient W) where
  -- A client that was given a key sends it with every request, whatever other headers are asked for.
  pub build_headers-internal_key :
      (key : String) (correlation_id : Option String) (given : Headers)
      → c.internal_api_key ≡ some key
      → truthy (some key) ≡ true
      → header internal_api_key_header (build_headers c correlation_id given) ≡ some key
  unfolding build_headers
  build_headers-internal_key key correlation_id given configured real =
      rw (configured, real) (header-set_header_self internal_api_key_header key _)
