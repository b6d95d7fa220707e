-- ===== src/Dashboards/ApiPerformance.antt =====
-- The dashboard of `api_performance`.
pub mod Requests
pub mod Runtime
use arvan_ip_country_api.Prelude.{List, [], ◌∷◌}
use arvan_ip_country_api.Dashboards.{Dashboard, dashboard, Variable}
use arvan_ip_country_api.Dashboards.Layout.{Row, rows, new_layout}
use Requests.{traffic_row, latency_row, cache_behavior_row}
use Runtime.{dependency_performance_row, runtime_and_kubernetes_row, release_identity_row}

abbrev variables : List Variable
variables =
    record {
      name = "namespace";
      label = "Namespace";
      definition = "label_values(ip_country_build_info, namespace)";
      current = "__APP_NAMESPACE__";
    }
    ∷ record {
      name = "pod";
      label = "Pod";
      definition = "label_values(ip_country_build_info{namespace=~\"$namespace\"}, pod)";
      current = ".*";
    }
    ∷ record {
      name = "route";
      label = "Route";
      definition = "label_values(ip_country_http_requests_total{namespace=~\"$namespace\"}, route)";
      current = ".*";
    }
    ∷ record {
      name = "status_code";
      label = "Status code";
      definition =
          "label_values(ip_country_http_requests_total{namespace=~\"$namespace\"}, status_code)";
      current = ".*";
    }
    ∷ []

abbrev pub api_performance_rows : List Row
api_performance_rows =
    traffic_row ∷ latency_row ∷ cache_behavior_row ∷ dependency_performance_row
    ∷ runtime_and_kubernetes_row ∷ release_identity_row ∷ []

unfoldable pub api_performance : Dashboard
api_performance =
    dashboard "ip-country-api-performance" "IP Country API — Performance Deep Dive"
      "Application traffic, latency, cache, dependency, and runtime performance."
      (rows api_performance_rows new_layout).panels variables
