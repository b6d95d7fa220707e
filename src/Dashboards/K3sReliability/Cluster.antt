-- ===== src/Dashboards/K3sReliability/Cluster.antt =====
-- Rows of `k3s_reliability`, with every format string filled in.
use arvan_ip_country_api.Prelude.{some, [], ◌∷◌}
use arvan_ip_country_api.Dashboards.{args, panel, queries}
use arvan_ip_country_api.Dashboards.Layout.{Row}

abbrev pub cluster_summary_row : Row
cluster_summary_row = record {
  title = "Cluster summary";
  description = "Immediate reliability risks across nodes and workloads.";
  items =
      panel (record (args "Ready nodes" "Ready K3s nodes.") {
        expr =
            some
              "sum(kube_node_status_condition{node=~\"${node:regex}\",condition=\"Ready\",status=\"true\"})";
        kind = "stat";
      })
      ∷ panel (record (args "Unavailable Deployments" "Unavailable Deployment replicas.") {
        expr =
            some
              "sum(kube_deployment_status_replicas_unavailable{namespace=~\"${namespace:regex}\",deployment=~\"${workload:regex}\"}) or vector(0)";
        kind = "stat";
      })
      ∷ panel
          (record (args "Unavailable StatefulSets" "Desired minus ready StatefulSet replicas.") {
            expr =
                some
                  "sum(kube_statefulset_replicas{namespace=~\"${namespace:regex}\"} - kube_statefulset_status_replicas_ready{namespace=~\"${namespace:regex}\"}) or vector(0)";
            kind = "stat";
          })
      ∷ panel (record (args "Pending Pods" "Pods currently Pending.") {
        expr =
            some
              "sum(kube_pod_status_phase{namespace=~\"${namespace:regex}\",phase=\"Pending\"} == 1) or vector(0)";
        kind = "stat";
      })
      ∷ panel (record (args "CrashLooping containers" "Containers in CrashLoopBackOff.") {
        expr =
            some
              "sum(kube_pod_container_status_waiting_reason{namespace=~\"${namespace:regex}\",reason=\"CrashLoopBackOff\"} == 1) or vector(0)";
        kind = "stat";
      })
      ∷ panel (record (args "Restart rate" "Container restart rate.") {
        expr =
            some
              "sum(rate(kube_pod_container_status_restarts_total{namespace=~\"${namespace:regex}\"}[15m]))";
        unit = "ops";
      })
      ∷ panel (record (args "Current firing alerts" "All firing Prometheus alerts.") {
        expr = some "sum(ALERTS{alertstate=\"firing\"}) or vector(0)";
        kind = "stat";
      })
      ∷ [];
}

abbrev pub node_capacity_row : Row
node_capacity_row = record {
  title = "Node capacity";
  description = "CPU, memory, filesystem, network, load, and Pod saturation by node.";
  items =
      panel (record (args "CPU utilization" "Non-idle CPU share by node-exporter instance.") {
        expr =
            some
              "1 - avg by (instance) (rate(node_cpu_seconds_total{mode=\"idle\",instance=~\"${node:regex}(:.*)?\"}[5m]))";
        unit = "percentunit";
        legend = "{{instance}}";
      })
      ∷ panel (record (args "Memory utilization" "Used memory share.") {
        expr =
            some
              "1 - node_memory_MemAvailable_bytes{instance=~\"${node:regex}(:.*)?\"} / node_memory_MemTotal_bytes{instance=~\"${node:regex}(:.*)?\"}";
        unit = "percentunit";
        legend = "{{instance}}";
      })
      ∷ panel
          (record (args "Filesystem utilization"
            "Filesystem utilization on persistent filesystems.") {
              expr =
                  some
                    "1 - node_filesystem_avail_bytes{instance=~\"${node:regex}(:.*)?\",fstype!~\"tmpfs|overlay|squashfs\"} / node_filesystem_size_bytes{instance=~\"${node:regex}(:.*)?\",fstype!~\"tmpfs|overlay|squashfs\"}";
              unit = "percentunit";
              legend = "{{instance}} {{mountpoint}}";
            })
      ∷ panel (record (args "Filesystem available" "Available filesystem bytes.") {
        expr =
            some
              "node_filesystem_avail_bytes{instance=~\"${node:regex}(:.*)?\",fstype!~\"tmpfs|overlay|squashfs\"}";
        unit = "bytes";
        legend = "{{instance}} {{mountpoint}}";
      })
      ∷ panel
          (record (args "Node network throughput"
            "Physical node receive and transmit throughput.") {
              targets = some (
                  queries (
                    (
                      "sum by (instance) (rate(node_network_receive_bytes_total{instance=~\"${node:regex}(:.*)?\",device!~\"lo|veth.*|flannel.*|cni.*\"}[5m]))",
                      "RX {{instance}}",
                    )
                    ∷ (
                      "sum by (instance) (rate(node_network_transmit_bytes_total{instance=~\"${node:regex}(:.*)?\",device!~\"lo|veth.*|flannel.*|cni.*\"}[5m]))",
                      "TX {{instance}}",
                    )
                    ∷ []));
              unit = "Bps";
            })
      ∷ panel (record (args "Node load average" "Linux load average by node.") {
        targets = some (
            queries (
              ("node_load1{instance=~\"${node:regex}(:.*)?\"}", "1m {{instance}}")
              ∷ ("node_load5{instance=~\"${node:regex}(:.*)?\"}", "5m {{instance}}")
              ∷ ("node_load15{instance=~\"${node:regex}(:.*)?\"}", "15m {{instance}}")
              ∷ []));
      })
      ∷ panel (record (args "Pod count by node" "Scheduled Pod count by node.") {
        expr = some "count by (node) (kube_pod_info{node=~\"${node:regex}\"})";
        legend = "{{node}}";
      })
      ∷ [];
}

abbrev pub workload_reliability_row : Row
workload_reliability_row = record {
  title = "Workload reliability";
  description = "Readiness, restarts, OOM events, and scheduling pressure.";
  items =
      panel
        (record (args "Application desired vs ready" "Application desired and ready replicas.") {
          targets = some (
              queries (
                (
                  "kube_deployment_spec_replicas{namespace=\"__APP_NAMESPACE__\",deployment=\"ip-country-api\"}",
                  "desired",
                )
                ∷ (
                  "kube_deployment_status_replicas_ready{namespace=\"__APP_NAMESPACE__\",deployment=\"ip-country-api\"}",
                  "ready",
                )
                ∷ []));
        })
      ∷ panel
          (record (args "Monitoring unavailable replicas"
            "Unavailable monitoring Deployment replicas.") {
              expr =
                  some
                    "sum(kube_deployment_status_replicas_unavailable{namespace=\"monitoring\"}) or vector(0)";
            })
      ∷ panel (record (args "PostgreSQL readiness" "Healthy CloudNativePG instances.") {
        expr = some "sum(cnpg_collector_up{namespace=\"database\"})";
        kind = "stat";
      })
      ∷ panel (record (args "Pod restart timeline" "Container restarts over fifteen minutes.") {
        expr =
            some
              "sum by (namespace,pod) (increase(kube_pod_container_status_restarts_total{namespace=~\"${namespace:regex}\"}[15m]))";
        legend = "{{namespace}}/{{pod}}";
      })
      ∷ panel (record (args "OOMKilled events" "Recent OOMKilled terminations.") {
        expr =
            some
              "sum(increase(kube_pod_container_status_last_terminated_reason{namespace=~\"${namespace:regex}\",reason=\"OOMKilled\"}[1h])) or vector(0)";
      })
      ∷ panel (record (args "Unschedulable Pods" "Pods whose Scheduled condition is false.") {
        expr =
            some
              "sum(kube_pod_status_scheduled{namespace=~\"${namespace:regex}\",condition=\"false\"} == 1) or vector(0)";
      })
      ∷ [];
}

abbrev pub kubernetes_api_row : Row
kubernetes_api_row = record {
  title = "Kubernetes API";
  description = "API request volume, errors, latency, and saturation.";
  items =
      panel (record (args "API request rate" "Kubernetes API request rate by verb.") {
        expr = some "sum by (verb) (rate(apiserver_request_total[5m]))";
        unit = "reqps";
        legend = "{{verb}}";
      })
      ∷ panel (record (args "API 5xx ratio" "Kubernetes API server-error ratio.") {
        expr =
            some
              "sum(rate(apiserver_request_total{code=~\"5..\"}[5m])) / clamp_min(sum(rate(apiserver_request_total[5m])), 0.000001)";
        unit = "percentunit";
      })
      ∷ panel (record (args "API latency percentiles" "Non-streaming API request latency.") {
        targets = some (
            queries (
              (
                "histogram_quantile(0.50, sum by (le) (rate(apiserver_request_duration_seconds_bucket{verb!~\"WATCH|CONNECT\"}[5m])))",
                "p50",
              )
              ∷ (
                "histogram_quantile(0.95, sum by (le) (rate(apiserver_request_duration_seconds_bucket{verb!~\"WATCH|CONNECT\"}[5m])))",
                "p95",
              )
              ∷ (
                "histogram_quantile(0.99, sum by (le) (rate(apiserver_request_duration_seconds_bucket{verb!~\"WATCH|CONNECT\"}[5m])))",
                "p99",
              )
              ∷ []));
        unit = "s";
      })
      ∷ panel (record (args "Inflight requests" "Current API inflight request count.") {
        expr = some "sum by (request_kind) (apiserver_current_inflight_requests)";
        legend = "{{request_kind}}";
      })
      ∷ panel (record (args "API availability" "API availability derived from 5xx responses.") {
        expr =
            some
              "1 - (sum(rate(apiserver_request_total{code=~\"5..\"}[5m])) / clamp_min(sum(rate(apiserver_request_total[5m])), 0.000001))";
        unit = "percentunit";
      })
      ∷ [];
}
