-- ===== src/Dashboards/SreOverview/Signals.antt =====
-- Rows of `sre_overview`, with every format string filled in.
use arvan_ip_country_api.Prelude.{some, [], ◌∷◌}
use arvan_ip_country_api.Dashboards.{args, panel, queries}
use arvan_ip_country_api.Dashboards.Layout.{Row}

abbrev pub executive_service_status_row : Row
executive_service_status_row = record {
  title = "Executive service status";
  description =
      "A fast health check across the application, database, Kubernetes, and monitoring layers.";
  items =
      panel
        (record (args "Overall service health"
          "One means the application, PostgreSQL exporters, and all three nodes are healthy.") {
            expr =
                some
                  "vector(scalar(kube_deployment_status_replicas_available{namespace=\"__APP_NAMESPACE__\",deployment=\"ip-country-api\"} >= bool 2) * scalar(min(cnpg_collector_up{namespace=\"database\"}) >= bool 1) * scalar(sum(kube_node_status_condition{condition=\"Ready\",status=\"true\"}) >= bool 3))";
            kind = "stat";
            unit = "bool";
            width = 6;
            min_value = some 0;
            max_value = some 1000;
          })
      ∷ panel (record (args "Application ready replicas" "Ready application replicas.") {
        expr =
            some
              "kube_deployment_status_replicas_available{namespace=\"__APP_NAMESPACE__\",deployment=\"ip-country-api\"}";
        kind = "stat";
        width = 6;
      })
      ∷ panel
          (record (args "PostgreSQL healthy instances"
            "CloudNativePG instances reporting a healthy collector.") {
              expr = some "sum(cnpg_collector_up{namespace=\"database\"})";
              kind = "stat";
              width = 6;
            })
      ∷ panel (record (args "Current PostgreSQL Primary" "Expected current Primary count is one.") {
        expr = some "sum(cnpg_pg_replication_in_recovery{namespace=\"database\"} == 0)";
        kind = "stat";
        width = 6;
      })
      ∷ panel
          (record (args "Synchronous standbys"
            "Synchronous standby count reported by the Primary.") {
              expr = some "max(cnpg_synchronous_standby_count{namespace=\"database\"})";
              kind = "stat";
              width = 6;
            })
      ∷ panel (record (args "Kubernetes ready nodes" "Nodes whose Ready condition is true.") {
        expr = some "sum(kube_node_status_condition{condition=\"Ready\",status=\"true\"})";
        kind = "stat";
        width = 6;
      })
      ∷ panel
          (record (args "Application scrape targets"
            "Application targets currently UP in Prometheus.") {
              expr = some "sum(up{namespace=\"__APP_NAMESPACE__\",service=\"ip-country-api\"})";
              kind = "stat";
              width = 6;
            })
      ∷ panel (record (args "Critical alerts" "Currently firing critical alerts.") {
        expr = some "sum(ALERTS{alertstate=\"firing\",severity=\"critical\"}) or vector(0)";
        kind = "stat";
        width = 3;
      })
      ∷ panel (record (args "Warning alerts" "Currently firing warning alerts.") {
        expr = some "sum(ALERTS{alertstate=\"firing\",severity=\"warning\"}) or vector(0)";
        kind = "stat";
        width = 3;
      })
      ∷ [];
}

abbrev pub golden_signals_row : Row
golden_signals_row = record {
  title = "Golden signals";
  description =
      "Traffic, errors, latency, and saturation for the service and its persistence layer.";
  items =
      panel (record (args "Lookup request rate" "Five-minute lookup API request rate.") {
        expr = some "ip_country_api:http_requests:rate5m";
        unit = "reqps";
      })
      ∷ panel (record (args "5xx error ratio" "Server-error ratio for eligible lookup requests.") {
        expr = some "ip_country_api:http_5xx_ratio:5m";
        unit = "percentunit";
      })
      ∷ panel
          (record (args "API latency percentiles"
            "Lookup API latency percentiles over five minutes.") {
              targets = some (
                  queries (
                    ("ip_country_api:http_latency_p50_seconds:5m", "p50")
                    ∷ ("ip_country_api:http_latency_p95_seconds:5m", "p95")
                    ∷ ("ip_country_api:http_latency_p99_seconds:5m", "p99")
                    ∷ []));
              unit = "s";
            })
      ∷ panel (record (args "Application CPU" "CPU consumed by each API Pod.") {
        expr =
            some
              "sum by (pod) (rate(container_cpu_usage_seconds_total{namespace=\"__APP_NAMESPACE__\",container=\"api\"}[5m]))";
        unit = "cores";
        legend = "{{pod}}";
      })
      ∷ panel (record (args "Application memory" "Working-set memory by API Pod.") {
        expr =
            some
              "sum by (pod) (container_memory_working_set_bytes{namespace=\"__APP_NAMESPACE__\",container=\"api\"})";
        unit = "bytes";
        legend = "{{pod}}";
      })
      ∷ panel
          (record (args "Database connection utilization"
            "Application database backends divided by configured maximum connections.") {
              expr =
                  some
                    "sum(cnpg_backends_total{namespace=\"database\",datname=\"ip_country\"}) / max(cnpg_pg_settings_setting{namespace=\"database\",name=\"max_connections\"})";
              unit = "percentunit";
            })
      ∷ panel (record (args "PostgreSQL PVC utilization" "Used capacity for CloudNativePG PVCs.") {
        expr =
            some
              "100 * sum(kubelet_volume_stats_used_bytes{exported_namespace=\"database\"}) by (persistentvolumeclaim) / sum(kubelet_volume_stats_capacity_bytes{exported_namespace=\"database\"}) by (persistentvolumeclaim)";
        unit = "percent";
        legend = "{{persistentvolumeclaim}}";
      })
      ∷ [];
}

abbrev pub seven_day_slo_row : Row
seven_day_slo_row = record {
  title = "Seven-day SLO";
  description =
      "Rolling SLO status. Only the currently retained history contributes while the service is younger than seven days.";
  items =
      panel
        (record (args "Availability SLI (7d)"
          "Seven-day availability SLI from lookup API 5xx events.") {
            expr = some "ip_country_api:availability_sli:7d";
            kind = "gauge";
            unit = "percentunit";
            width = 6;
            min_value = some 980;
            max_value = some 1000;
          })
      ∷ panel (record (args "Availability target" "Availability objective: 99.5 percent.") {
        expr = some "vector(0.995)";
        kind = "stat";
        unit = "percentunit";
        width = 6;
      })
      ∷ panel (record (args "Availability budget consumed" "Consumed availability error budget.") {
        expr = some "ip_country_api:availability_budget_consumed_ratio:7d";
        kind = "gauge";
        unit = "percentunit";
        width = 6;
      })
      ∷ panel
          (record (args "Availability budget remaining" "Remaining availability error budget.") {
            expr = some "ip_country_api:availability_budget_remaining_ratio:7d";
            kind = "gauge";
            unit = "percentunit";
            width = 6;
          })
      ∷ panel
          (record (args "Availability burn rates"
            "Availability error-budget burn across alert windows.") {
              targets = some (
                  queries (
                    ("ip_country_api:availability_burn_rate:5m", "5m")
                    ∷ ("ip_country_api:availability_burn_rate:1h", "1h")
                    ∷ ("ip_country_api:availability_burn_rate:6h", "6h")
                    ∷ ("ip_country_api:availability_burn_rate:24h", "24h")
                    ∷ []));
            })
      ∷ panel
          (record (args "Latency SLI (7d)" "Share of eligible requests completed within 500 ms.") {
            expr = some "ip_country_api:latency_sli:7d";
            kind = "gauge";
            unit = "percentunit";
            width = 6;
            min_value = some 800;
            max_value = some 1000;
          })
      ∷ panel (record (args "Latency target" "Latency objective: 95 percent below 500 ms.") {
        expr = some "vector(0.95)";
        kind = "stat";
        unit = "percentunit";
        width = 6;
      })
      ∷ panel (record (args "Latency budget consumed" "Consumed latency error budget.") {
        expr = some "ip_country_api:latency_budget_consumed_ratio:7d";
        kind = "gauge";
        unit = "percentunit";
        width = 6;
      })
      ∷ panel (record (args "Latency budget remaining" "Remaining latency error budget.") {
        expr = some "ip_country_api:latency_budget_remaining_ratio:7d";
        kind = "gauge";
        unit = "percentunit";
        width = 6;
      })
      ∷ panel
          (record (args "Latency burn rates" "Latency error-budget burn across alert windows.") {
            targets = some (
                queries (
                  ("ip_country_api:latency_burn_rate:5m", "5m")
                  ∷ ("ip_country_api:latency_burn_rate:1h", "1h")
                  ∷ ("ip_country_api:latency_burn_rate:6h", "6h")
                  ∷ ("ip_country_api:latency_burn_rate:24h", "24h")
                  ∷ []));
          })
      ∷ [];
}
