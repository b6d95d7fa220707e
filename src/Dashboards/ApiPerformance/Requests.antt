-- ===== src/Dashboards/ApiPerformance/Requests.antt =====
-- Rows of `api_performance`, with every format string filled in.
use arvan_ip_country_api.Prelude.{some, [], ◌∷◌}
use arvan_ip_country_api.Dashboards.{args, panel, queries}
use arvan_ip_country_api.Dashboards.Layout.{Row}

abbrev pub traffic_row : Row
traffic_row = record {
  title = "Traffic";
  description = "Request distribution and lookup throughput.";
  items =
      panel (record (args "Total RPS" "All instrumented application request traffic.") {
        expr =
            some "sum(rate(ip_country_http_requests_total{namespace=~\"${namespace:regex}\"}[5m]))";
        unit = "reqps";
      })
      ∷ panel (record (args "RPS by route" "Request rate grouped by actual route label.") {
        expr =
            some
              "sum by (route) (rate(ip_country_http_requests_total{namespace=~\"${namespace:regex}\",route=~\"${route:regex}\"}[5m]))";
        unit = "reqps";
        legend = "{{route}}";
      })
      ∷ panel (record (args "Requests by status" "Five-minute request counts by HTTP status.") {
        expr =
            some
              "sum by (status_code) (increase(ip_country_http_requests_total{namespace=~\"${namespace:regex}\",status_code=~\"${status_code:regex}\"}[5m]))";
        unit = "short";
        legend = "HTTP {{status_code}}";
      })
      ∷ panel (record (args "Request rate by Pod" "Traffic distribution across API Pods.") {
        expr =
            some
              "sum by (pod) (rate(ip_country_http_requests_total{namespace=~\"${namespace:regex}\",pod=~\"${pod:regex}\"}[5m]))";
        unit = "reqps";
        legend = "{{pod}}";
      })
      ∷ panel
          (record (args "Lookup throughput"
            "Successful lookup rate split by cache or provider source.") {
              expr =
                  some
                    "sum by (source) (rate(ip_country_lookup_total{namespace=~\"${namespace:regex}\",pod=~\"${pod:regex}\"}[5m]))";
              unit = "reqps";
              legend = "{{source}}";
            })
      ∷ [];
}

abbrev pub latency_row : Row
latency_row = record {
  title = "Latency";
  description = "Server-side request latency and the 500 ms objective boundary.";
  items =
      panel (record (args "Overall latency percentiles" "Overall latency percentiles.") {
        targets = some (
            queries (
              (
                "histogram_quantile(0.50, sum by (le) (rate(ip_country_http_request_duration_seconds_bucket{namespace=~\"${namespace:regex}\",route=~\"${route:regex}\"}[5m]))) and on() (sum(increase(ip_country_http_request_duration_seconds_count{namespace=~\"${namespace:regex}\",route=~\"${route:regex}\"}[5m])) > 0)",
                "p50",
              )
              ∷ (
                "histogram_quantile(0.95, sum by (le) (rate(ip_country_http_request_duration_seconds_bucket{namespace=~\"${namespace:regex}\",route=~\"${route:regex}\"}[5m]))) and on() (sum(increase(ip_country_http_request_duration_seconds_count{namespace=~\"${namespace:regex}\",route=~\"${route:regex}\"}[5m])) > 0)",
                "p95",
              )
              ∷ (
                "histogram_quantile(0.99, sum by (le) (rate(ip_country_http_request_duration_seconds_bucket{namespace=~\"${namespace:regex}\",route=~\"${route:regex}\"}[5m]))) and on() (sum(increase(ip_country_http_request_duration_seconds_count{namespace=~\"${namespace:regex}\",route=~\"${route:regex}\"}[5m])) > 0)",
                "p99",
              )
              ∷ []));
        unit = "s";
      })
      ∷ panel
          (record (args "p95 by route" "One-hour p95 latency grouped by known application route.") {
            expr =
                some
                  "histogram_quantile(0.95, sum by (le,route) (rate(ip_country_http_request_duration_seconds_bucket{namespace=~\"${namespace:regex}\",route=~\"${route:regex}\",route!=\"unmatched\"}[1h]))) and on(route) (sum by (route) (increase(ip_country_http_request_duration_seconds_count{namespace=~\"${namespace:regex}\",route=~\"${route:regex}\",route!=\"unmatched\"}[1h])) > 0)";
            unit = "s";
            legend = "{{route}}";
          })
      ∷ panel
          (record (args "Request latency heatmap"
            "Histogram bucket distribution for request latency.") {
              expr =
                  some
                    "sum by (le) (rate(ip_country_http_request_duration_seconds_bucket{namespace=~\"${namespace:regex}\",route=~\"${route:regex}\"}[5m]))";
              kind = "heatmap";
              unit = "s";
            })
      ∷ panel
          (record (args "Slow-request ratio (>500 ms)"
            "Eligible lookup requests slower than 500 ms.") {
              expr = some "ip_country_api:http_latency_bad_ratio:5m";
              unit = "percentunit";
            })
      ∷ panel (record (args "p95 latency by Pod" "Per-Pod p95 application latency.") {
        expr =
            some
              "histogram_quantile(0.95, sum by (le,pod) (rate(ip_country_http_request_duration_seconds_bucket{namespace=~\"${namespace:regex}\",pod=~\"${pod:regex}\",route=~\"${route:regex}\"}[5m]))) and on(pod) (sum by (pod) (increase(ip_country_http_request_duration_seconds_count{namespace=~\"${namespace:regex}\",pod=~\"${pod:regex}\",route=~\"${route:regex}\"}[5m])) > 0)";
        unit = "s";
        legend = "{{pod}}";
      })
      ∷ [];
}

abbrev pub cache_behavior_row : Row
cache_behavior_row = record {
  title = "Cache behavior";
  description = "Cache effectiveness and lookup-source distribution.";
  items =
      panel (record (args "Database cache hits" "Successful database cache-hit rate.") {
        expr =
            some
              "sum(rate(ip_country_lookup_total{namespace=~\"${namespace:regex}\",source=\"database\",result=\"success\"}[5m]))";
        unit = "reqps";
      })
      ∷ panel
          (record (args "Provider lookups"
            "Provider lookup rate; zero is expected for cached traffic.") {
              expr =
                  some
                    "sum(rate(ip_country_lookup_total{namespace=~\"${namespace:regex}\",source=\"provider\",result=\"success\"}[5m])) or vector(0)";
              unit = "reqps";
            })
      ∷ panel (record (args "Cache hit ratio" "Successful lookups served by PostgreSQL.") {
        expr = some "ip_country_api:cache_hit_ratio:5m";
        unit = "percentunit";
      })
      ∷ panel (record (args "Cache miss ratio" "Successful lookups requiring provider data.") {
        expr = some "1 - ip_country_api:cache_hit_ratio:5m";
        unit = "percentunit";
      })
      ∷ panel (record (args "Lookup source distribution" "Five-minute lookup count by source.") {
        expr =
            some
              "sum by (source) (increase(ip_country_lookup_total{namespace=~\"${namespace:regex}\",result=\"success\"}[5m]))";
        unit = "short";
        legend = "{{source}}";
      })
      ∷ panel (record (args "Cache-hit trend" "Cache-hit rate over time.") {
        expr =
            some
              "sum(rate(ip_country_lookup_total{namespace=~\"${namespace:regex}\",source=\"database\",result=\"success\"}[5m]))";
        unit = "reqps";
      })
      ∷ [];
}
