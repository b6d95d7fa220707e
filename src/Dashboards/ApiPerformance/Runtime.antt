-- ===== src/Dashboards/ApiPerformance/Runtime.antt =====
-- Rows of `api_performance`, with every format string filled in.
use arvan_ip_country_api.Prelude.{some, [], ◌∷◌}
use arvan_ip_country_api.Dashboards.{args, panel, queries}
use arvan_ip_country_api.Dashboards.Layout.{Row}

abbrev pub dependency_performance_row : Row
dependency_performance_row = record {
  title = "Dependency performance";
  description = "Provider and database rates, errors, and histogram latency.";
  items =
      panel (record (args "Provider request rate" "External provider request rate by result.") {
        expr =
            some
              "sum by (result) (rate(ip_country_provider_requests_total{namespace=~\"${namespace:regex}\"}[5m])) or vector(0)";
        unit = "reqps";
        legend = "{{result}}";
      })
      ∷ panel
          (record (args "Provider error ratio"
            "Provider failure ratio when provider traffic exists.") {
              expr = some "ip_country_api:provider_error_ratio:5m";
              unit = "percentunit";
            })
      ∷ panel
          (record (args "Provider latency percentiles"
            "Cumulative IPinfo latency percentiles for current Pods.") {
              targets = some (
                  queries (
                    (
                      "histogram_quantile(0.50, sum by (le) (ip_country_provider_request_duration_seconds_bucket{namespace=~\"${namespace:regex}\"}))",
                      "p50",
                    )
                    ∷ (
                      "histogram_quantile(0.95, sum by (le) (ip_country_provider_request_duration_seconds_bucket{namespace=~\"${namespace:regex}\"}))",
                      "p95",
                    )
                    ∷ (
                      "histogram_quantile(0.99, sum by (le) (ip_country_provider_request_duration_seconds_bucket{namespace=~\"${namespace:regex}\"}))",
                      "p99",
                    )
                    ∷ []));
              unit = "s";
            })
      ∷ panel (record (args "Database operation rate" "Application database operations by type.") {
        expr =
            some
              "sum by (operation) (rate(ip_country_database_operations_total{namespace=~\"${namespace:regex}\"}[5m]))";
        unit = "ops";
        legend = "{{operation}}";
      })
      ∷ panel (record (args "Database error ratio" "Application database-operation error ratio.") {
        expr = some "ip_country_api:database_error_ratio:5m";
        unit = "percentunit";
      })
      ∷ panel
          (record (args "Database latency percentiles" "Database operation latency percentiles.") {
            targets = some (
                queries (
                  (
                    "histogram_quantile(0.50, sum by (le) (rate(ip_country_database_operation_duration_seconds_bucket{namespace=~\"${namespace:regex}\"}[5m]))) and on() (sum(increase(ip_country_database_operation_duration_seconds_count{namespace=~\"${namespace:regex}\"}[5m])) > 0)",
                    "p50",
                  )
                  ∷ (
                    "histogram_quantile(0.95, sum by (le) (rate(ip_country_database_operation_duration_seconds_bucket{namespace=~\"${namespace:regex}\"}[5m]))) and on() (sum(increase(ip_country_database_operation_duration_seconds_count{namespace=~\"${namespace:regex}\"}[5m])) > 0)",
                    "p95",
                  )
                  ∷ (
                    "histogram_quantile(0.99, sum by (le) (rate(ip_country_database_operation_duration_seconds_bucket{namespace=~\"${namespace:regex}\"}[5m]))) and on() (sum(increase(ip_country_database_operation_duration_seconds_count{namespace=~\"${namespace:regex}\"}[5m])) > 0)",
                    "p99",
                  )
                  ∷ []));
            unit = "s";
          })
      ∷ [];
}

abbrev pub runtime_and_kubernetes_row : Row
runtime_and_kubernetes_row = record {
  title = "Runtime and Kubernetes";
  description = "Per-Pod resource, readiness, restart, placement, and network detail.";
  items =
      panel (record (args "CPU by Pod" "CPU usage by API Pod.") {
        expr =
            some
              "sum by (pod) (rate(container_cpu_usage_seconds_total{namespace=~\"${namespace:regex}\",container=\"api\",pod=~\"${pod:regex}\"}[5m]))";
        unit = "cores";
        legend = "{{pod}}";
      })
      ∷ panel (record (args "CPU throttling ratio" "CFS throttled-period ratio by Pod.") {
        expr =
            some
              "sum by (pod) (rate(container_cpu_cfs_throttled_periods_total{namespace=~\"${namespace:regex}\",container=\"api\",pod=~\"${pod:regex}\"}[5m])) / clamp_min(sum by (pod) (rate(container_cpu_cfs_periods_total{namespace=~\"${namespace:regex}\",container=\"api\",pod=~\"${pod:regex}\"}[5m])), 0.000001)";
        unit = "percentunit";
        legend = "{{pod}}";
      })
      ∷ panel (record (args "Memory working set" "Working-set memory by API Pod.") {
        expr =
            some
              "sum by (pod) (container_memory_working_set_bytes{namespace=~\"${namespace:regex}\",container=\"api\",pod=~\"${pod:regex}\"})";
        unit = "bytes";
        legend = "{{pod}}";
      })
      ∷ panel
          (record (args "Memory limit utilization"
            "Working set divided by declared memory limit.") {
              expr =
                  some
                    "sum by (pod) (container_memory_working_set_bytes{namespace=~\"${namespace:regex}\",container=\"api\",pod=~\"${pod:regex}\"}) / sum by (pod) (kube_pod_container_resource_limits{namespace=~\"${namespace:regex}\",container=\"api\",resource=\"memory\",pod=~\"${pod:regex}\"})";
              unit = "percentunit";
              legend = "{{pod}}";
            })
      ∷ panel (record (args "Restarts" "Container restart count.") {
        expr =
            some
              "sum by (pod) (kube_pod_container_status_restarts_total{namespace=~\"${namespace:regex}\",container=\"api\",pod=~\"${pod:regex}\"})";
        unit = "short";
        legend = "{{pod}}";
      })
      ∷ panel (record (args "Pod readiness" "Readiness state by API Pod.") {
        expr =
            some
              "kube_pod_container_status_ready{namespace=~\"${namespace:regex}\",container=\"api\",pod=~\"${pod:regex}\"}";
        kind = "state-timeline";
        unit = "bool";
        legend = "{{pod}}";
      })
      ∷ panel (record (args "Pod distribution" "API Pod-to-node placement.") {
        expr = some "kube_pod_info{namespace=~\"${namespace:regex}\",pod=~\"${pod:regex}\"}";
        kind = "table";
        legend = "{{pod}} → {{node}}";
      })
      ∷ panel (record (args "Network receive" "Pod receive throughput.") {
        expr =
            some
              "sum by (pod) (rate(container_network_receive_bytes_total{namespace=~\"${namespace:regex}\",pod=~\"${pod:regex}\"}[5m]))";
        unit = "Bps";
        legend = "{{pod}}";
      })
      ∷ panel (record (args "Network transmit" "Pod transmit throughput.") {
        expr =
            some
              "sum by (pod) (rate(container_network_transmit_bytes_total{namespace=~\"${namespace:regex}\",pod=~\"${pod:regex}\"}[5m]))";
        unit = "Bps";
        legend = "{{pod}}";
      })
      ∷ [];
}

abbrev pub release_identity_row : Row
release_identity_row = record {
  title = "Release identity";
  description = "Runtime version and Kubernetes rollout identity available from metrics.";
  items =
      panel (record (args "Application version" "Version label exported by the application.") {
        expr = some "max by (version) (ip_country_build_info{namespace=~\"${namespace:regex}\"})";
        kind = "table";
        width = 6;
        legend = "{{version}}";
      })
      ∷ panel (record (args "Pod creation timestamps" "Creation time of each API Pod.") {
        expr = some "kube_pod_created{namespace=~\"${namespace:regex}\",pod=~\"${pod:regex}\"}";
        unit = "dateTimeAsIso";
        width = 6;
        legend = "{{pod}}";
      })
      ∷ panel (record (args "Current replicas" "Current application replica count.") {
        expr =
            some
              "kube_deployment_status_replicas{namespace=~\"${namespace:regex}\",deployment=\"ip-country-api\"}";
        kind = "stat";
        width = 6;
      })
      ∷ panel (record (args "Available replicas" "Available application replicas.") {
        expr =
            some
              "kube_deployment_status_replicas_available{namespace=~\"${namespace:regex}\",deployment=\"ip-country-api\"}";
        kind = "stat";
        width = 6;
      })
      ∷ [];
}
