-- ===== src/Dashboards/SreOverview/Dependencies.antt =====
-- Rows of `sre_overview`, with every format string filled in.
use arvan_ip_country_api.Prelude.{some, [], ◌∷◌}
use arvan_ip_country_api.Dashboards.{args, panel, queries}
use arvan_ip_country_api.Dashboards.Layout.{Row}

abbrev pub dependency_health_row : Row
dependency_health_row = record {
  title = "Dependency health";
  description =
      "Provider, PostgreSQL, cache, replication, and etcd indicators used to localize service risk.";
  items =
      panel
        (record (args "Provider error ratio" "Provider error ratio when provider traffic exists.") {
          expr = some "ip_country_api:provider_error_ratio:5m";
          unit = "percentunit";
        })
      ∷ panel
          (record (args "Provider p95 latency"
            "Cumulative IPinfo p95 latency for the current application Pods.") {
              expr =
                  some
                    "histogram_quantile(0.95, sum by (le) (ip_country_provider_request_duration_seconds_bucket{namespace=\"__APP_NAMESPACE__\"}))";
              unit = "s";
            })
      ∷ panel (record (args "Database error ratio" "Application database-operation error ratio.") {
        expr = some "ip_country_api:database_error_ratio:5m";
        unit = "percentunit";
      })
      ∷ panel
          (record (args "Database p95 latency"
            "Application-observed PostgreSQL p95 operation latency.") {
              expr = some "ip_country_api:database_latency_p95_seconds:5m";
              unit = "s";
            })
      ∷ panel (record (args "Cache hit ratio" "Database cache hits among successful lookups.") {
        expr = some "ip_country_api:cache_hit_ratio:5m";
        unit = "percentunit";
      })
      ∷ panel (record (args "Replication lag" "CloudNativePG replay lag by instance.") {
        expr = some "cnpg_pg_replication_lag{namespace=\"database\"}";
        unit = "s";
        legend = "{{pod}}";
      })
      ∷ panel
          (record (args "etcd leader status"
            "One series should identify the current etcd leader.") {
              expr = some "etcd_server_is_leader{job=\"k3s-etcd\"}";
              unit = "bool";
              legend = "{{instance}}";
            })
      ∷ [];
}

abbrev pub service_topology_row : Row
service_topology_row = record {
  title = "Service topology";
  description =
      "Placement and readiness relationships across application Pods, PostgreSQL instances, and K3s nodes.";
  items =
      panel (record (args "Application Pod placement" "Application Pod-to-node placement.") {
        expr = some "kube_pod_info{namespace=\"__APP_NAMESPACE__\",pod=~\"ip-country-api-.*\"}";
        kind = "table";
        width = 12;
        legend = "{{pod}} → {{node}}";
      })
      ∷ panel
          (record (args "PostgreSQL roles"
            "Zero is Primary and one is Replica for each PostgreSQL Pod.") {
              expr = some "cnpg_pg_replication_in_recovery{namespace=\"database\"}";
              kind = "table";
              width = 12;
              legend = "{{pod}}";
            })
      ∷ panel (record (args "Node readiness" "Ready state for each K3s node.") {
        expr = some "kube_node_status_condition{condition=\"Ready\",status=\"true\"}";
        kind = "state-timeline";
        width = 12;
        legend = "{{node}}";
      })
      ∷ panel
          (record (args "Deployment desired vs available"
            "Desired and available application replicas.") {
              targets = some (
                  queries (
                    (
                      "kube_deployment_spec_replicas{namespace=\"__APP_NAMESPACE__\",deployment=\"ip-country-api\"}",
                      "desired",
                    )
                    ∷ (
                      "kube_deployment_status_replicas_available{namespace=\"__APP_NAMESPACE__\",deployment=\"ip-country-api\"}",
                      "available",
                    )
                    ∷ []));
              width = 12;
            })
      ∷ [];
}
