-- ===== src/Shared/Middleware/Laws.antt =====
-- Service-to-service authentication, on both sides of a call.
use ecommerce_microservice.Prelude.{
  String, ◌≡◌, ◌≢◌, Option, some, none, true, false, arith, str_eq_iff, str_eq_refl,
}
use ecommerce_microservice.Shared.Action.{Action, ok}
use ecommerce_microservice.Shared.Headers.{Headers, header, internal_api_key_header, truthy}
use ecommerce_microservice.Shared.ErrorHandler.{Reply, failure}
use ecommerce_microservice.Shared.Middleware.{internal_auth, guarded, has_key, forbidden}
use ecommerce_microservice.Shared.HttpClient.{HttpClient, build_headers}
use ecommerce_microservice.Shared.HttpClient.Failures.{build_headers-internal_key}

has_key-refuses :
    (key : String) (given : Option String) → given ≢ some key → has_key key given ≡ false
has_key-refuses key none h = ground arith
has_key-refuses key (some s) h = ground (arith, str_eq_iff s key)

module _ {W T : Type 0} (handler : Action W (Reply T)) where
  -- A request without the key, or with another one, is answered 403 and its handler does not run:
  -- the world stays as it was.
  pub internal_auth-refuses :
      (key : String) (headers : Headers) (w : W)
      → header internal_api_key_header headers ≢ some key
      → guarded (internal_auth key headers) handler w ≡ (ok (failure 403 forbidden), w)
  unfolding internal_auth
  internal_auth-refuses key headers w other =
      rw (has_key-refuses key (header internal_api_key_header headers) other)

  -- A service whose client holds the same key, not the empty text, reaches the handler.
  pub internal_auth-accepts_client :
      (c : HttpClient W) (key : String) (correlation_id : Option String) (given : Headers) (w : W)
      → c.internal_api_key ≡ some key
      → truthy (some key) ≡ true
      → guarded (internal_auth key (build_headers c correlation_id given)) handler w ≡ handler w
  unfolding internal_auth
  internal_auth-accepts_client c key correlation_id given w configured real =
      rw (build_headers-internal_key c key correlation_id given configured real, str_eq_refl key)
