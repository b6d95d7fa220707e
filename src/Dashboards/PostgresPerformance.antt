-- ===== src/Dashboards/PostgresPerformance.antt =====
-- The dashboard of `postgres_performance`.
pub mod Activity
pub mod Capacity
use arvan_ip_country_api.Prelude.{List, [], ◌∷◌}
use arvan_ip_country_api.Dashboards.{Dashboard, dashboard, Variable}
use arvan_ip_country_api.Dashboards.Layout.{Row, rows, new_layout}
use Activity.{cluster_topology_row, replication_row, connections_row, transactions_row}
use Capacity.{
  buffer_and_tuple_behavior_row, wal_and_checkpoints_row, capacity_row,
  application_dependency_view_row,
}

abbrev variables : List Variable
variables =
    record {
      name = "namespace";
      label = "Namespace";
      definition = "label_values(cnpg_collector_up, namespace)";
      current = "database";
    }
    ∷ record {
      name = "cluster";
      label = "Cluster";
      definition = "label_values(cnpg_collector_up{namespace=~\"$namespace\"}, cluster)";
      current = "ip-country-postgres";
    }
    ∷ record {
      name = "instance";
      label = "Instance";
      definition = "label_values(cnpg_collector_up{namespace=~\"$namespace\"}, pod)";
      current = ".*";
    }
    ∷ record {
      name = "database";
      label = "Database";
      definition =
          "label_values(cnpg_pg_stat_database_xact_commit{namespace=~\"$namespace\"}, datname)";
      current = "ip_country";
    }
    ∷ []

abbrev pub postgres_performance_rows : List Row
postgres_performance_rows =
    cluster_topology_row ∷ replication_row ∷ connections_row ∷ transactions_row
    ∷ buffer_and_tuple_behavior_row ∷ wal_and_checkpoints_row ∷ capacity_row
    ∷ application_dependency_view_row ∷ []

unfoldable pub postgres_performance : Dashboard
postgres_performance =
    dashboard "cloudnativepg-sre-performance" "CloudNativePG — SRE and Performance"
      "CloudNativePG topology, replication, transactions, WAL, and capacity."
      (rows postgres_performance_rows new_layout).panels variables
