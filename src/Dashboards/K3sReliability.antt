-- ===== src/Dashboards/K3sReliability.antt =====
-- The dashboard of `k3s_reliability`.
pub mod Cluster
pub mod Workloads
use arvan_ip_country_api.Prelude.{List, [], ◌∷◌}
use arvan_ip_country_api.Dashboards.{Dashboard, dashboard, Variable}
use arvan_ip_country_api.Dashboards.Layout.{Row, rows, new_layout}
use Cluster.{cluster_summary_row, node_capacity_row, workload_reliability_row, kubernetes_api_row}
use Workloads.{etcd_row, dns_and_networking_row, storage_row}

abbrev variables : List Variable
variables =
    record {
      name = "node";
      label = "Node";
      definition = "label_values(kube_node_info, node)";
      current = ".*";
    }
    ∷ record {
      name = "namespace";
      label = "Namespace";
      definition = "label_values(kube_pod_info, namespace)";
      current = ".*";
    }
    ∷ record {
      name = "workload";
      label = "Workload";
      definition = "label_values(kube_deployment_status_replicas, deployment)";
      current = ".*";
    }
    ∷ []

abbrev pub k3s_reliability_rows : List Row
k3s_reliability_rows =
    cluster_summary_row ∷ node_capacity_row ∷ workload_reliability_row ∷ kubernetes_api_row
    ∷ etcd_row ∷ dns_and_networking_row ∷ storage_row ∷ []

unfoldable pub k3s_reliability : Dashboard
k3s_reliability =
    dashboard "k3s-reliability-capacity" "K3s — Reliability and Capacity"
      "Reliability risks and capacity saturation across the K3s platform."
      (rows k3s_reliability_rows new_layout).panels variables
