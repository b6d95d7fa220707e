-- ===== src/Json.antt =====
-- Decoded JSON, as `json.loads` and httpx's `response.json()` return it; a decoded object has each key once.
use arvan_ip_country_api.Prelude.{Bool, false, ◌||◌, Option, none, some, if◌then◌else◌}
use arvan_ip_country_api.Text.{Text, text_eq}

-- A decoded JSON text. A number is kept as it is written.
mutual
  pub data Json : Type 0 where
    null : Json
    boolean : Bool → Json
    number : Text → Json
    text : Text → Json
    array : Items → Json
    object : Fields → Json

  pub data Items : Type 0 where
    nil : Items
    item : Json → Items → Items

  pub data Fields : Type 0 where
    end : Fields
    field : Text → Json → Fields → Fields

-- The value under a key: of two fields with one key, the later one counts.
unfoldable pub get_field : Text → Fields → Option Json
get_field key end = none
get_field key (field k v more) = elim (get_field key more) [
  | some later ↦ some later
  | none ↦ if text_eq k key then some v else none
]

unfoldable pub has_field : Text → Fields → Bool
has_field key end = false
has_field key (field k v more) = text_eq k key || has_field key more
