-- ===== src/Verifier.antt =====
-- deploy/scripts/verify-sre-dashboards.py: every expression of the dashboards is sent to Prometheus, and
-- the results are judged. `none` stands for an exception that ends the script: a missing key, or a value
-- that cannot be iterated or indexed.
pub mod Panels
pub mod Checks
pub mod Runs
pub mod Verdict
pub mod Summary
pub mod Totals
pub mod Rendering
pub mod Tokens
use mathlib.Core.Option
use arvan_ip_country_api.Prelude.{
  Bool, true, false, ◌&&◌, ◌||◌, Option, none, some, List, [], ◌∷◌, ◌++◌, if◌then◌else◌,
}
use arvan_ip_country_api.Text.{Text, codes, text_eq}
use arvan_ip_country_api.Json.{
  Json, text, array, object, Items, nil, item, Fields, end, field, get_field, has_field,
}

-- `"targets" in payload and "title" in payload`
unfoldable pub is_panel : Fields → Bool
unfolding has_field
is_panel fields = has_field (codes "targets") fields && has_field (codes "title") fields

-- `iter_panels(payload)`, as the list of what it yields
unfoldable mutual
  unfolding is_panel

  pub iter_panels : Json → List Fields
  iter_panels (object fields) = (if is_panel fields then fields ∷ [] else []) ++ iter_fields fields
  iter_panels (array items) = iter_items items
  iter_panels _ = []

  pub iter_items : Items → List Fields
  iter_items nil = []
  iter_items (item j more) = iter_panels j ++ iter_items more

  pub iter_fields : Fields → List Fields
  iter_fields end = []
  iter_fields (field key j more) = iter_panels j ++ iter_fields more

-- Python's floats: `float(text)`, which may be a ValueError, `math.isfinite` and `== 0`; and `str` of a
-- decoded value.
pub record Python (F : Type 0) : Type 0 where
  pub float : Text → Option F
  pub is_finite : F → Bool
  pub is_zero : F → Bool
  pub str : Json → Text

-- `value[1]`
abbrev pub index_one : Json → Option Json
index_one (array (item a (item b more))) = some b
index_one (text (c ∷ d ∷ s)) = some (text (d ∷ []))
index_one _ = none

abbrev pub cons_option {ℓ} : {A : Type ℓ} → Option A → Option (List A) → Option (List A)
cons_option (some x) (some xs) = some (x ∷ xs)
cons_option _ _ = none

abbrev pub append_option {ℓ} : {A : Type ℓ} → Option (List A) → Option (List A) → Option (List A)
append_option (some xs) (some ys) = some (xs ++ ys)
append_option _ _ = none

module _ {F : Type 0} (python : Python F) where
  -- `str(value[1])`
  abbrev pub second : Json → Option Text
  second value = Option.map python.str (index_one value)

  -- `for value in item.get("values", [])`
  abbrev pub seconds : Items → Option (List Text)
  seconds nil = some []
  seconds (item value more) = cons_option (second value) (seconds more)

  abbrev pub second_keys : Fields → Option (List Text)
  second_keys end = some []
  second_keys (field key value more) = cons_option (second (text key)) (second_keys more)

  abbrev pub values_part : Option Json → Option (List Text)
  values_part none = some []
  values_part (some (array values)) = seconds values
  values_part (some (object fields)) = second_keys fields
  values_part (some (text [])) = some []
  values_part (some _) = none

  abbrev pub value_part : Option Json → Option (List Text)
  value_part none = some []
  value_part (some value) = Option.map (λ t. t ∷ []) (second value)

  -- The loop over the items of a vector or matrix.
  abbrev pub raw_values : Items → Option (List Text)
  raw_values nil = some []
  raw_values (item (object fields) more) =
      append_option
        (append_option (value_part (get_field (codes "value") fields))
          (values_part (get_field (codes "values") fields)))
        (raw_values more)
  raw_values (item _ more) = raw_values more

  -- `result_type in {"scalar", "string"}`; a type that cannot be hashed is a TypeError.
  abbrev pub is_single : Option Json → Option Bool
  is_single (some (text t)) = some (text_eq t (codes "scalar") || text_eq t (codes "string"))
  is_single (some (array items)) = none
  is_single (some (object fields)) = none
  is_single _ = some false

  abbrev pub raw_result : Option Bool → Option Json → Option (List Text)
  raw_result none result = none
  raw_result (some true) (some (array (item a (item b nil)))) = some (python.str b ∷ [])
  raw_result (some _) (some (array items)) = raw_values items
  raw_result (some _) _ = some []

  -- `except ValueError: continue`
  abbrev pub keep_parsed : Option F → List F → List F
  keep_parsed none rest = rest
  keep_parsed (some x) rest = x ∷ rest

  abbrev pub parsed : List Text → List F
  parsed [] = []
  parsed (t ∷ ts) = keep_parsed (python.float t) (parsed ts)

  unfoldable pub values_from_result : Fields → Option (List F)
  values_from_result fields = Option.map parsed (
      raw_result (is_single (get_field (codes "resultType") fields))
        (get_field (codes "result") fields))
