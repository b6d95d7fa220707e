-- ===== src/Observability/Metrics.antt =====
-- observability/metrics.py. prometheus_client is not modelled: a metrics object is its switch and
-- the calls `labels(...).inc()` and `labels(...).observe(...)` that were made, oldest first.
use arvan_ip_country_api.Prelude.{ℕ, String, Bool, true, false, List, [], ◌∷◌, ◌++◌, if◌then◌else◌}

pub data Counter : Type 0 where
  http_requests lookups provider_requests provider_errors database_operations : Counter
  database_errors : Counter

pub data Histogram : Type 0 where
  http_duration provider_duration database_duration : Histogram

-- A label's value: a name, or `str(n)`.
pub data Label : Type 0 where
  name : String → Label
  number : ℕ → Label

pub data Sample : Type 0 where
  inc : Counter → List Label → Sample
  observe : Histogram → List Label → ℕ → Sample

-- The label names that the constructors are given.
unfoldable pub counter_labels : Counter → List String
counter_labels http_requests = "method" ∷ "route" ∷ "status_code" ∷ []
counter_labels lookups = "source" ∷ "result" ∷ []
counter_labels provider_requests = "provider" ∷ "result" ∷ []
counter_labels provider_errors = "provider" ∷ "error_type" ∷ []
counter_labels database_operations = "operation" ∷ []
counter_labels database_errors = "operation" ∷ "error_type" ∷ []

unfoldable pub histogram_labels : Histogram → List String
histogram_labels http_duration = "method" ∷ "route" ∷ []
histogram_labels provider_duration = "provider" ∷ []
histogram_labels database_duration = "operation" ∷ []

-- The gauge `build_info`, set once to 1.
abbrev pub build_info_labels : List String
build_info_labels = "version" ∷ []

abbrev pub allowed_labels : List String
allowed_labels =
    "method" ∷ "route" ∷ "status_code" ∷ "source" ∷ "result" ∷ "provider" ∷ "operation"
    ∷ "error_type" ∷ []

pub record ApplicationMetrics : Type 0 where
  pub version : String
  pub enabled : Bool
  pub samples : List Sample

unfoldable pub new_metrics : String → Bool → ApplicationMetrics
new_metrics version enabled = record { version = version; enabled = enabled; samples = [] }

abbrev pub add : List Sample → ApplicationMetrics → ApplicationMetrics
add new m = record m { samples = m.samples ++ new }

unfoldable pub http_request : String → String → ℕ → ℕ → ApplicationMetrics → ApplicationMetrics
http_request method route status duration m =
    if m.enabled
    then add
        (inc http_requests (name method ∷ name route ∷ number status ∷ [])
          ∷ observe http_duration (name method ∷ name route ∷ []) duration
          ∷ [])
        m
    else m

unfoldable pub lookup : String → String → ApplicationMetrics → ApplicationMetrics
lookup source result m =
    if m.enabled then add (inc lookups (name source ∷ name result ∷ []) ∷ []) m else m

unfoldable pub provider_request : String → String → ℕ → ApplicationMetrics → ApplicationMetrics
provider_request provider result duration m =
    if m.enabled
    then add
        (inc provider_requests (name provider ∷ name result ∷ [])
          ∷ observe provider_duration (name provider ∷ []) duration
          ∷ [])
        m
    else m

unfoldable pub provider_error : String → String → ApplicationMetrics → ApplicationMetrics
provider_error provider error_type m =
    if m.enabled then add (inc provider_errors (name provider ∷ name error_type ∷ []) ∷ []) m else m

unfoldable pub database_operation : String → ℕ → ApplicationMetrics → ApplicationMetrics
database_operation operation duration m =
    if m.enabled
    then add
        (inc database_operations (name operation ∷ [])
          ∷ observe database_duration (name operation ∷ []) duration
          ∷ [])
        m
    else m

unfoldable pub database_error : String → String → ApplicationMetrics → ApplicationMetrics
database_error operation error_type m =
    if m.enabled
    then add (inc database_errors (name operation ∷ name error_type ∷ []) ∷ []) m
    else m

-- What a metrics object keeps of new samples: nothing, if it is disabled.
abbrev pub recorded : Bool → List Sample → List Sample
recorded true new = new
recorded false new = []
