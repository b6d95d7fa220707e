-- ===== src/Dashboards/PostgresPerformance/Capacity.antt =====
-- Rows of `postgres_performance`, with every format string filled in.
use arvan_ip_country_api.Prelude.{some, [], ◌∷◌}
use arvan_ip_country_api.Dashboards.{args, panel, queries}
use arvan_ip_country_api.Dashboards.Layout.{Row}

abbrev pub buffer_and_tuple_behavior_row : Row
buffer_and_tuple_behavior_row = record {
  title = "Buffer and tuple behavior";
  description = "Buffer cache effectiveness, tuple activity, and temporary I/O.";
  items =
      panel (record (args "Database cache hit ratio" "PostgreSQL shared-buffer hit ratio.") {
        expr =
            some
              "sum(rate(cnpg_pg_stat_database_blks_hit{namespace=~\"${namespace:regex}\",datname=~\"${database:regex}\"}[5m])) / clamp_min(sum(rate(cnpg_pg_stat_database_blks_hit{namespace=~\"${namespace:regex}\",datname=~\"${database:regex}\"}[5m]) + rate(cnpg_pg_stat_database_blks_read{namespace=~\"${namespace:regex}\",datname=~\"${database:regex}\"}[5m])), 0.000001)";
        unit = "percentunit";
      })
      ∷ panel (record (args "Blocks read and hit" "Block read and cache-hit rates.") {
        targets = some (
            queries (
              (
                "sum(rate(cnpg_pg_stat_database_blks_read{namespace=~\"${namespace:regex}\",datname=~\"${database:regex}\"}[5m]))",
                "read",
              )
              ∷ (
                "sum(rate(cnpg_pg_stat_database_blks_hit{namespace=~\"${namespace:regex}\",datname=~\"${database:regex}\"}[5m]))",
                "hit",
              )
              ∷ []));
        unit = "ops";
      })
      ∷ panel (record (args "Tuple activity" "Tuple activity by operation.") {
        targets = some (
            queries (
              (
                "sum(rate(cnpg_pg_stat_database_tup_returned{namespace=~\"${namespace:regex}\",datname=~\"${database:regex}\"}[5m]))",
                "returned",
              )
              ∷ (
                "sum(rate(cnpg_pg_stat_database_tup_fetched{namespace=~\"${namespace:regex}\",datname=~\"${database:regex}\"}[5m]))",
                "fetched",
              )
              ∷ (
                "sum(rate(cnpg_pg_stat_database_tup_inserted{namespace=~\"${namespace:regex}\",datname=~\"${database:regex}\"}[5m]))",
                "inserted",
              )
              ∷ (
                "sum(rate(cnpg_pg_stat_database_tup_updated{namespace=~\"${namespace:regex}\",datname=~\"${database:regex}\"}[5m]))",
                "updated",
              )
              ∷ (
                "sum(rate(cnpg_pg_stat_database_tup_deleted{namespace=~\"${namespace:regex}\",datname=~\"${database:regex}\"}[5m]))",
                "deleted",
              )
              ∷ []));
        unit = "ops";
      })
      ∷ panel (record (args "Temporary bytes" "Temporary-file byte generation.") {
        expr =
            some
              "sum(rate(cnpg_pg_stat_database_temp_bytes{namespace=~\"${namespace:regex}\",datname=~\"${database:regex}\"}[5m]))";
        unit = "Bps";
      })
      ∷ panel (record (args "Temporary files" "Temporary files created over five minutes.") {
        expr =
            some
              "sum(increase(cnpg_pg_stat_database_temp_files{namespace=~\"${namespace:regex}\",datname=~\"${database:regex}\"}[5m])) or vector(0)";
      })
      ∷ [];
}

abbrev pub wal_and_checkpoints_row : Row
wal_and_checkpoints_row = record {
  title = "WAL and checkpoints";
  description = "WAL generation and checkpoint pressure.";
  items =
      panel (record (args "WAL generation" "WAL generation rate.") {
        expr =
            some
              "sum by (pod) (rate(cnpg_collector_wal_bytes{namespace=~\"${namespace:regex}\",pod=~\"${instance:regex}\"}[5m]))";
        unit = "Bps";
        legend = "{{pod}}";
      })
      ∷ panel (record (args "Requested checkpoints" "Requested checkpoint rate.") {
        expr =
            some
              "sum(rate(cnpg_pg_stat_checkpointer_checkpoints_req{namespace=~\"${namespace:regex}\"}[5m]))";
        unit = "ops";
      })
      ∷ panel (record (args "Timed checkpoints" "Timed checkpoint rate.") {
        expr =
            some
              "sum(rate(cnpg_pg_stat_checkpointer_checkpoints_timed{namespace=~\"${namespace:regex}\"}[5m]))";
        unit = "ops";
      })
      ∷ panel (record (args "Checkpoint write time" "Checkpoint write seconds per second.") {
        expr =
            some
              "sum(rate(cnpg_pg_stat_checkpointer_write_time{namespace=~\"${namespace:regex}\"}[5m])) / 1000";
        unit = "s";
      })
      ∷ panel (record (args "Checkpoint sync time" "Checkpoint sync seconds per second.") {
        expr =
            some
              "sum(rate(cnpg_pg_stat_checkpointer_sync_time{namespace=~\"${namespace:regex}\"}[5m])) / 1000";
        unit = "s";
      })
      ∷ [];
}

abbrev pub capacity_row : Row
capacity_row = record {
  title = "Capacity";
  description = "Database, PVC, compute, and restart capacity indicators.";
  items =
      panel (record (args "Database size" "Current database size.") {
        expr =
            some
              "max by (datname) (cnpg_pg_database_size_bytes{namespace=~\"${namespace:regex}\",datname=~\"${database:regex}\"})";
        unit = "bytes";
        legend = "{{datname}}";
      })
      ∷ panel (record (args "Database growth rate" "One-hour linear database size trend.") {
        expr =
            some
              "max by (datname) (deriv(cnpg_pg_database_size_bytes{namespace=~\"${namespace:regex}\",datname=~\"${database:regex}\"}[1h]))";
        unit = "Bps";
        legend = "{{datname}}";
      })
      ∷ panel (record (args "PVC utilization" "CloudNativePG PVC utilization.") {
        expr =
            some
              "100 * kubelet_volume_stats_used_bytes{exported_namespace=~\"${namespace:regex}\"} / kubelet_volume_stats_capacity_bytes{exported_namespace=~\"${namespace:regex}\"}";
        unit = "percent";
        legend = "{{persistentvolumeclaim}}";
      })
      ∷ panel (record (args "CPU by instance" "PostgreSQL CPU by Pod.") {
        expr =
            some
              "sum by (pod) (rate(container_cpu_usage_seconds_total{namespace=~\"${namespace:regex}\",container=\"postgres\",pod=~\"${instance:regex}\"}[5m]))";
        unit = "cores";
        legend = "{{pod}}";
      })
      ∷ panel (record (args "Memory by instance" "PostgreSQL working-set memory.") {
        expr =
            some
              "sum by (pod) (container_memory_working_set_bytes{namespace=~\"${namespace:regex}\",container=\"postgres\",pod=~\"${instance:regex}\"})";
        unit = "bytes";
        legend = "{{pod}}";
      })
      ∷ panel (record (args "Pod restarts" "PostgreSQL container restart count.") {
        expr =
            some
              "sum by (pod) (kube_pod_container_status_restarts_total{namespace=~\"${namespace:regex}\",container=\"postgres\",pod=~\"${instance:regex}\"})";
        legend = "{{pod}}";
      })
      ∷ [];
}

abbrev pub application_dependency_view_row : Row
application_dependency_view_row = record {
  title = "Application dependency view";
  description = "Application-observed database health alongside PostgreSQL readiness.";
  items =
      panel
        (record (args "Application DB operation rate"
          "Database operations initiated by the application.") {
            expr = some "sum by (operation) (rate(ip_country_database_operations_total[5m]))";
            unit = "ops";
            legend = "{{operation}}";
          })
      ∷ panel
          (record (args "Application DB p95 latency" "Application-observed database p95 latency.") {
            expr = some "ip_country_api:database_latency_p95_seconds:5m";
            unit = "s";
          })
      ∷ panel (record (args "Application DB error ratio" "Application database error ratio.") {
        expr = some "ip_country_api:database_error_ratio:5m";
        unit = "percentunit";
      })
      ∷ panel
          (record (args "Application ready replicas"
            "Application readiness next to PostgreSQL health.") {
              expr =
                  some
                    "kube_deployment_status_replicas_available{namespace=\"__APP_NAMESPACE__\",deployment=\"ip-country-api\"}";
              kind = "stat";
            })
      ∷ [];
}
