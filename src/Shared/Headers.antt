-- ===== src/Shared/Headers.antt =====
-- HTTP headers as a JavaScript object: a write replaces the value at a key that is there.
-- shared/src/http/correlationId.ts and internalAuth.ts name the two headers.
use ecommerce_microservice.Prelude.{
  String, Bool, false, not, Option, none, some, List, [], ◌∷◌, ◌≡◌, refl, arith, str_eq, str_eq_iff,
  str_eq_refl, if◌then◌else◌,
}

abbrev pub Headers : Type 0
Headers = List (String × String)

abbrev pub correlation_id_header : String
correlation_id_header = "x-correlation-id"

abbrev pub internal_api_key_header : String
internal_api_key_header = "x-internal-api-key"

unfoldable pub header : String → Headers → Option String
header k [] = none
header k ((j, v) ∷ hs) = if str_eq j k then some v else header k hs

unfoldable pub set_header : String → String → Headers → Headers
set_header k v [] = (k, v) ∷ []
set_header k v ((j, u) ∷ hs) = if str_eq j k then (k, v) ∷ hs else (j, u) ∷ set_header k v hs

-- The truth value of an optional text: undefined and the empty text are false.
abbrev pub truthy : Option String → Bool
truthy none = false
truthy (some s) = not (str_eq s "")

pub header-set_header :
    (k j v : String) (hs : Headers)
    → header j (set_header k v hs) ≡ (if str_eq k j then some v else header j hs)
unfolding header set_header
header-set_header k j v [] = refl
header-set_header k j v ((i, u) ∷ hs) =
    ground (arith, str_eq_iff k j, str_eq_iff i k, str_eq_iff i j, header-set_header k j v hs)

pub header-set_header_self : (k v : String) (hs : Headers) → header k (set_header k v hs) ≡ some v
header-set_header_self k v hs = simp (header-set_header, str_eq_refl)
