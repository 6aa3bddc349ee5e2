-- ===== src/Shared/Json.antt =====
-- The JSON values that cross between the services, as far as the source inspects them.
use ecommerce_microservice.Prelude.{ℕ, String, Bool, Option, none, some, str_eq, if◌then◌else◌}

mutual
  pub data Json : Type 0 where
    null : Json
    bool : Bool → Json
    num : ℕ → Json
    str : String → Json
    arr : Items → Json
    obj : Fields → Json

  pub data Items : Type 0 where
    nil : Items
    cons : Json → Items → Items

  pub data Fields : Type 0 where
    end : Fields
    field : String → Json → Fields → Fields

abbrev pub lookup_field : String → Fields → Option Json
lookup_field k end = none
lookup_field k (field j v fs) = if str_eq j k then some v else lookup_field k fs

-- `value?.key`: undefined on anything but an object that has the key.
abbrev pub get_field : String → Option Json → Option Json
get_field k (some (obj fs)) = lookup_field k fs
get_field k _ = none

-- `value === text`
abbrev pub is_text : String → Option Json → Bool
is_text t (some (str s)) = str_eq s t
is_text t _ = Bool.false
