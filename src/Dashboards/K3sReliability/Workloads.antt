-- ===== src/Dashboards/K3sReliability/Workloads.antt =====
-- Rows of `k3s_reliability`, with every format string filled in.
use arvan_ip_country_api.Prelude.{some, [], ◌∷◌}
use arvan_ip_country_api.Dashboards.{args, panel, queries}
use arvan_ip_country_api.Dashboards.Layout.{Row}

abbrev pub etcd_row : Row
etcd_row = record {
  title = "etcd";
  description = "Consensus leadership, storage, disk latency, and proposal failures.";
  items =
      panel (record (args "Members with leader" "etcd members currently observing a leader.") {
        expr = some "sum(etcd_server_has_leader{job=\"k3s-etcd\"})";
        kind = "stat";
      })
      ∷ panel (record (args "Current leader" "Leader identity across etcd members.") {
        expr = some "etcd_server_is_leader{job=\"k3s-etcd\"}";
        kind = "state-timeline";
        unit = "bool";
        legend = "{{instance}}";
      })
      ∷ panel (record (args "Leader changes" "Leader changes seen in one hour.") {
        expr =
            some
              "sum(increase(etcd_server_leader_changes_seen_total{job=\"k3s-etcd\"}[1h])) or vector(0)";
      })
      ∷ panel (record (args "Database size" "etcd MVCC database size.") {
        expr = some "etcd_mvcc_db_total_size_in_bytes{job=\"k3s-etcd\"}";
        unit = "bytes";
        legend = "{{instance}}";
      })
      ∷ panel (record (args "WAL fsync p95/p99" "etcd WAL fsync latency.") {
        targets = some (
            queries (
              (
                "histogram_quantile(0.95, sum by (le) (rate(etcd_disk_wal_fsync_duration_seconds_bucket{job=\"k3s-etcd\"}[5m])))",
                "p95",
              )
              ∷ (
                "histogram_quantile(0.99, sum by (le) (rate(etcd_disk_wal_fsync_duration_seconds_bucket{job=\"k3s-etcd\"}[5m])))",
                "p99",
              )
              ∷ []));
        unit = "s";
      })
      ∷ panel (record (args "Backend commit p95" "etcd backend commit p95 latency.") {
        expr =
            some
              "histogram_quantile(0.95, sum by (le) (rate(etcd_disk_backend_commit_duration_seconds_bucket{job=\"k3s-etcd\"}[5m])))";
        unit = "s";
      })
      ∷ panel (record (args "Proposal failures" "Failed etcd proposals in five minutes.") {
        expr =
            some
              "sum(increase(etcd_server_proposals_failed_total{job=\"k3s-etcd\"}[5m])) or vector(0)";
      })
      ∷ [];
}

abbrev pub dns_and_networking_row : Row
dns_and_networking_row = record {
  title = "DNS and networking";
  description = "CoreDNS request quality and Pod network flow/errors.";
  items =
      panel (record (args "CoreDNS request rate" "DNS request rate by query type.") {
        expr = some "sum by (type) (rate(coredns_dns_requests_total[5m]))";
        unit = "reqps";
        legend = "{{type}}";
      })
      ∷ panel (record (args "CoreDNS error rate" "Non-NOERROR DNS responses.") {
        expr =
            some
              "sum by (rcode) (rate(coredns_dns_responses_total{rcode!=\"NOERROR\"}[5m])) or vector(0)";
        unit = "reqps";
        legend = "{{rcode}}";
      })
      ∷ panel (record (args "CoreDNS p95 latency" "CoreDNS p95 request latency.") {
        expr =
            some
              "histogram_quantile(0.95, sum by (le) (rate(coredns_dns_request_duration_seconds_bucket[5m])))";
        unit = "s";
      })
      ∷ panel (record (args "Pod network throughput" "Pod network throughput by namespace.") {
        targets = some (
            queries (
              (
                "sum by (namespace) (rate(container_network_receive_bytes_total{namespace=~\"${namespace:regex}\"}[5m]))",
                "RX {{namespace}}",
              )
              ∷ (
                "sum by (namespace) (rate(container_network_transmit_bytes_total{namespace=~\"${namespace:regex}\"}[5m]))",
                "TX {{namespace}}",
              )
              ∷ []));
        unit = "Bps";
      })
      ∷ panel (record (args "Pod network errors" "Pod network error rate.") {
        targets = some (
            queries (
              (
                "sum(rate(container_network_receive_errors_total{namespace=~\"${namespace:regex}\"}[5m])) or vector(0)",
                "receive",
              )
              ∷ (
                "sum(rate(container_network_transmit_errors_total{namespace=~\"${namespace:regex}\"}[5m])) or vector(0)",
                "transmit",
              )
              ∷ []));
        unit = "ops";
      })
      ∷ panel (record (args "Pod packet drops" "Pod network packet-drop rate.") {
        targets = some (
            queries (
              (
                "sum(rate(container_network_receive_packets_dropped_total{namespace=~\"${namespace:regex}\"}[5m])) or vector(0)",
                "receive",
              )
              ∷ (
                "sum(rate(container_network_transmit_packets_dropped_total{namespace=~\"${namespace:regex}\"}[5m])) or vector(0)",
                "transmit",
              )
              ∷ []));
        unit = "ops";
      })
      ∷ [];
}

abbrev pub storage_row : Row
storage_row = record {
  title = "Storage";
  description = "Persistent volume usage across monitoring and PostgreSQL.";
  items =
      panel (record (args "PersistentVolume utilization" "PVC utilization by claim.") {
        expr =
            some
              "100 * kubelet_volume_stats_used_bytes{exported_namespace=~\"${namespace:regex}\"} / kubelet_volume_stats_capacity_bytes{exported_namespace=~\"${namespace:regex}\"}";
        unit = "percent";
        legend = "{{exported_namespace}}/{{persistentvolumeclaim}}";
      })
      ∷ panel (record (args "PVC available bytes" "Available PVC capacity.") {
        expr =
            some "kubelet_volume_stats_available_bytes{exported_namespace=~\"${namespace:regex}\"}";
        unit = "bytes";
        legend = "{{exported_namespace}}/{{persistentvolumeclaim}}";
      })
      ∷ panel (record (args "Prometheus PVC utilization" "Prometheus storage utilization.") {
        expr =
            some
              "100 * kubelet_volume_stats_used_bytes{exported_namespace=\"monitoring\",persistentvolumeclaim=~\"prometheus-.*\"} / kubelet_volume_stats_capacity_bytes{exported_namespace=\"monitoring\",persistentvolumeclaim=~\"prometheus-.*\"}";
        unit = "percent";
      })
      ∷ panel (record (args "Grafana PVC utilization" "Grafana storage utilization.") {
        expr =
            some
              "100 * kubelet_volume_stats_used_bytes{exported_namespace=\"monitoring\",persistentvolumeclaim=~\".*grafana.*\"} / kubelet_volume_stats_capacity_bytes{exported_namespace=\"monitoring\",persistentvolumeclaim=~\".*grafana.*\"}";
        unit = "percent";
      })
      ∷ panel (record (args "Alertmanager PVC utilization" "Alertmanager storage utilization.") {
        expr =
            some
              "100 * kubelet_volume_stats_used_bytes{exported_namespace=\"monitoring\",persistentvolumeclaim=~\"alertmanager-.*\"} / kubelet_volume_stats_capacity_bytes{exported_namespace=\"monitoring\",persistentvolumeclaim=~\"alertmanager-.*\"}";
        unit = "percent";
      })
      ∷ panel (record (args "PostgreSQL PVC utilization" "CloudNativePG storage utilization.") {
        expr =
            some
              "100 * kubelet_volume_stats_used_bytes{exported_namespace=\"database\"} / kubelet_volume_stats_capacity_bytes{exported_namespace=\"database\"}";
        unit = "percent";
        legend = "{{persistentvolumeclaim}}";
      })
      ∷ [];
}
