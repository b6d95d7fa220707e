-- ===== src/Dashboards/PostgresPerformance/Activity.antt =====
-- Rows of `postgres_performance`, with every format string filled in.
use arvan_ip_country_api.Prelude.{some, [], ◌∷◌}
use arvan_ip_country_api.Dashboards.{args, panel}
use arvan_ip_country_api.Dashboards.Layout.{Row}

abbrev pub cluster_topology_row : Row
cluster_topology_row = record {
  title = "Cluster topology";
  description = "CloudNativePG health, roles, placement, and synchronization.";
  items =
      panel (record (args "Healthy instances" "Healthy CNPG collectors.") {
        expr =
            some
              "sum(cnpg_collector_up{namespace=~\"${namespace:regex}\",cluster=~\"${cluster:regex}\"})";
        kind = "stat";
      })
      ∷ panel (record (args "Current Primary" "Expected Primary count is one.") {
        expr =
            some
              "sum(cnpg_pg_replication_in_recovery{namespace=~\"${namespace:regex}\",pod=~\"${instance:regex}\"} == 0)";
        kind = "stat";
      })
      ∷ panel (record (args "Replica count" "Replica instances in recovery.") {
        expr =
            some
              "sum(cnpg_pg_replication_in_recovery{namespace=~\"${namespace:regex}\",pod=~\"${instance:regex}\"} == 1)";
        kind = "stat";
      })
      ∷ panel
          (record (args "Role by instance"
            "PostgreSQL recovery state identifies Primary and Replicas.") {
              expr =
                  some
                    "cnpg_pg_replication_in_recovery{namespace=~\"${namespace:regex}\",pod=~\"${instance:regex}\"}";
              kind = "state-timeline";
              legend = "{{pod}} (0 Primary, 1 Replica)";
            })
      ∷ panel (record (args "Instance-to-node placement" "PostgreSQL Pod placement.") {
        expr = some "kube_pod_info{namespace=~\"${namespace:regex}\",pod=~\"${instance:regex}\"}";
        kind = "table";
        legend = "{{pod}} → {{node}}";
      })
      ∷ panel (record (args "Synchronous standbys" "Synchronous standby count reported by CNPG.") {
        expr = some "max(cnpg_synchronous_standby_count{namespace=~\"${namespace:regex}\"})";
        kind = "stat";
      })
      ∷ panel
          (record (args "Postmaster start time"
            "Instance start times reveal restart or role-change events.") {
              expr =
                  some
                    "cnpg_pg_postmaster_start_time{namespace=~\"${namespace:regex}\",pod=~\"${instance:regex}\"}";
              unit = "dateTimeAsIso";
              legend = "{{pod}}";
            })
      ∷ [];
}

abbrev pub replication_row : Row
replication_row = record {
  title = "Replication";
  description = "Replay lag, WAL distance, slots, and synchronous state.";
  items =
      panel (record (args "Replication lag" "Replay lag by instance.") {
        expr =
            some
              "cnpg_pg_replication_lag{namespace=~\"${namespace:regex}\",pod=~\"${instance:regex}\"}";
        unit = "s";
        legend = "{{pod}}";
      })
      ∷ panel (record (args "WAL sent difference" "WAL byte distance at the sender.") {
        expr =
            some
              "cnpg_pg_stat_replication_sent_diff_bytes{namespace=~\"${namespace:regex}\",pod=~\"${instance:regex}\"}";
        unit = "bytes";
        legend = "{{pod}}";
      })
      ∷ panel
          (record (args "WAL replay difference"
            "Replay byte distance on replication connections.") {
              expr =
                  some
                    "cnpg_pg_stat_replication_replay_diff_bytes{namespace=~\"${namespace:regex}\",pod=~\"${instance:regex}\"}";
              unit = "bytes";
              legend = "{{pod}}";
            })
      ∷ panel (record (args "Replay delay" "Replay lag from pg_stat_replication.") {
        expr =
            some
              "cnpg_pg_stat_replication_replay_lag_seconds{namespace=~\"${namespace:regex}\",pod=~\"${instance:regex}\"}";
        unit = "s";
        legend = "{{pod}}";
      })
      ∷ panel (record (args "Replication slots active" "Replication slot active state.") {
        expr =
            some
              "cnpg_pg_replication_slots_active{namespace=~\"${namespace:regex}\",pod=~\"${instance:regex}\"}";
        unit = "bool";
        legend = "{{pod}} / {{slot_name}}";
      })
      ∷ panel (record (args "Slot retained WAL" "WAL retained by replication slots.") {
        expr =
            some
              "cnpg_pg_replication_slots_pg_wal_lsn_diff{namespace=~\"${namespace:regex}\",pod=~\"${instance:regex}\"}";
        unit = "bytes";
        legend = "{{pod}} / {{slot_name}}";
      })
      ∷ [];
}

abbrev pub connections_row : Row
connections_row = record {
  title = "Connections";
  description = "Backend state and configured connection capacity.";
  items =
      panel (record (args "Total connections" "Database backends by instance.") {
        expr =
            some
              "sum by (pod) (cnpg_backends_total{namespace=~\"${namespace:regex}\",pod=~\"${instance:regex}\",datname=~\"${database:regex}\"})";
        legend = "{{pod}}";
      })
      ∷ panel (record (args "Active connections" "Active backends.") {
        expr =
            some
              "sum by (pod) (cnpg_backends_total{namespace=~\"${namespace:regex}\",pod=~\"${instance:regex}\",datname=~\"${database:regex}\",state=\"active\"})";
        legend = "{{pod}}";
      })
      ∷ panel (record (args "Idle connections" "Idle backends.") {
        expr =
            some
              "sum by (pod) (cnpg_backends_total{namespace=~\"${namespace:regex}\",pod=~\"${instance:regex}\",datname=~\"${database:regex}\",state=\"idle\"})";
        legend = "{{pod}}";
      })
      ∷ panel (record (args "Connection utilization" "Backends divided by max_connections.") {
        expr =
            some
              "sum(cnpg_backends_total{namespace=~\"${namespace:regex}\",datname=~\"${database:regex}\"}) / max(cnpg_pg_settings_setting{namespace=~\"${namespace:regex}\",name=\"max_connections\"})";
        unit = "percentunit";
      })
      ∷ panel (record (args "Maximum connections" "Configured max_connections by instance.") {
        expr =
            some
              "max by (pod) (cnpg_pg_settings_setting{namespace=~\"${namespace:regex}\",pod=~\"${instance:regex}\",name=\"max_connections\"})";
        legend = "{{pod}}";
      })
      ∷ [];
}

abbrev pub transactions_row : Row
transactions_row = record {
  title = "Transactions";
  description = "Transaction throughput and failure indicators.";
  items =
      panel (record (args "TPS" "Commit plus rollback rate.") {
        expr =
            some
              "sum(rate(cnpg_pg_stat_database_xact_commit{namespace=~\"${namespace:regex}\",datname=~\"${database:regex}\"}[5m]) + rate(cnpg_pg_stat_database_xact_rollback{namespace=~\"${namespace:regex}\",datname=~\"${database:regex}\"}[5m]))";
        unit = "ops";
      })
      ∷ panel (record (args "Commits" "Commit rate by instance.") {
        expr =
            some
              "sum by (pod) (rate(cnpg_pg_stat_database_xact_commit{namespace=~\"${namespace:regex}\",pod=~\"${instance:regex}\",datname=~\"${database:regex}\"}[5m]))";
        unit = "ops";
        legend = "{{pod}}";
      })
      ∷ panel (record (args "Rollbacks" "Rollback rate by instance.") {
        expr =
            some
              "sum by (pod) (rate(cnpg_pg_stat_database_xact_rollback{namespace=~\"${namespace:regex}\",pod=~\"${instance:regex}\",datname=~\"${database:regex}\"}[5m]))";
        unit = "ops";
        legend = "{{pod}}";
      })
      ∷ panel (record (args "Rollback ratio" "Rollbacks as a share of transactions.") {
        expr =
            some
              "sum(rate(cnpg_pg_stat_database_xact_rollback{namespace=~\"${namespace:regex}\",datname=~\"${database:regex}\"}[5m])) / clamp_min(sum(rate(cnpg_pg_stat_database_xact_commit{namespace=~\"${namespace:regex}\",datname=~\"${database:regex}\"}[5m]) + rate(cnpg_pg_stat_database_xact_rollback{namespace=~\"${namespace:regex}\",datname=~\"${database:regex}\"}[5m])), 0.000001)";
        unit = "percentunit";
      })
      ∷ panel (record (args "Deadlocks" "Deadlocks observed during five minutes.") {
        expr =
            some
              "sum(increase(cnpg_pg_stat_database_deadlocks{namespace=~\"${namespace:regex}\",datname=~\"${database:regex}\"}[5m])) or vector(0)";
      })
      ∷ panel (record (args "Conflicts" "Recovery conflicts during five minutes.") {
        expr =
            some
              "sum(increase(cnpg_pg_stat_database_conflicts{namespace=~\"${namespace:regex}\",datname=~\"${database:regex}\"}[5m])) or vector(0)";
      })
      ∷ [];
}
