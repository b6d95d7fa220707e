-- ===== src/Dashboards/SreOverview.antt =====
-- The dashboard of `sre_overview`.
pub mod Signals
pub mod Dependencies
use arvan_ip_country_api.Prelude.{List, [], ◌∷◌}
use arvan_ip_country_api.Dashboards.{Dashboard, dashboard}
use arvan_ip_country_api.Dashboards.Layout.{Row, rows, new_layout}
use Signals.{executive_service_status_row, golden_signals_row, seven_day_slo_row}
use Dependencies.{dependency_health_row, service_topology_row}

abbrev pub sre_overview_rows : List Row
sre_overview_rows =
    executive_service_status_row ∷ golden_signals_row ∷ seven_day_slo_row ∷ dependency_health_row
    ∷ service_topology_row ∷ []

unfoldable pub sre_overview : Dashboard
sre_overview =
    dashboard "arvan-challenge-sre-overview" "Arvan Challenge — SRE Service Overview"
      "Primary cross-layer operational view for the challenge service."
      (rows sre_overview_rows new_layout).panels []
