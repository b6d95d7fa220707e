-- ===== src/Tests/Requests.antt =====
-- The theorems on requests and dashboards at concrete inputs.
use arvan_ip_country_api.Prelude.{◌≡◌, ◌↔◌, refl, arith, true, none, some, all}
use arvan_ip_country_api.Text.{Text, codes}
use arvan_ip_country_api.Effects.{ok, raised, timeout_error, Exec}
use arvan_ip_country_api.Service.{IpLookupService}
use arvan_ip_country_api.Service.Assembly.{IsForeign, ipinfo_service, ipinfo-IsDocumented}
use arvan_ip_country_api.Service.Statuses.{IsDocumented}
use arvan_ip_country_api.Api.Context.{request_id_or_new, matches_pattern, valid_request_id}
use arvan_ip_country_api.Api.Context.Ids.{IsRequestId, request_id_or_new-IsRequestId}
use arvan_ip_country_api.Api.Health.{ready}
use arvan_ip_country_api.Api.Health.Laws.{HasStatus, ready_iff}
use arvan_ip_country_api.Api.Application.Observed.{
  Observed, route_run, request_observability-Observed,
}
use arvan_ip_country_api.Api.Application.{
  lookup_route, request_observability, Request, serve_lookup,
}
use arvan_ip_country_api.Api.Application.Answers.{Answered, id_of, serve_lookup-Answered}
use arvan_ip_country_api.Dashboards.{panel}
use arvan_ip_country_api.Dashboards.Layout.{rows, new_layout}
use arvan_ip_country_api.Dashboards.Packing.{no_overlap, fits, ids_from, rows_packed}
use arvan_ip_country_api.Dashboards.SreOverview.{sre_overview_rows}
use arvan_ip_country_api.Tests.Platform.{Address, addresses, World, clock, session, fresh}
use arvan_ip_country_api.Tests.Servers.{ascii, retrying, ipinfo, client_law, retrying_law}

abbrev uuid4 : World → Text × World
uuid4 w = (codes "9b2f0a52-76c5-4b5e-9d0e-0a1b2c3d4e5f", w)

abbrev service : IpLookupService Address World
service = ipinfo_service addresses session clock ascii retrying ipinfo 86400

session-IsForeign : IsForeign session
session-IsForeign = record { scalar = λ key w h. cc; execute = λ st w h. cc }

service-IsDocumented : IsDocumented addresses clock service
service-IsDocumented =
    ipinfo-IsDocumented addresses session clock session-IsForeign ascii retrying ipinfo client_law
      retrying_law 86400

abbrev request : Request
request = record {
  method = "POST";
  path = "/api/v1/lookups";
  route = some "/api/v1/lookups";
  x_request_id = some (codes "client-1");
}

serve_lookup-Answered_example :
    Answered
      (id_of addresses clock uuid4 service request (fresh 1))
      (serve_lookup addresses clock uuid4 service request
        (some (record { ip = codes "8.8.8.8" }))
        (fresh 1)).0
serve_lookup-Answered_example =
    serve_lookup-Answered addresses clock uuid4 service service-IsDocumented request
      (some (record { ip = codes "8.8.8.8" })) (fresh 1)

abbrev slow_probe : Exec World (Unit {0})
slow_probe s = (raised timeout_error, s)

ready_iff_example :
    HasStatus (ready "0.1.0" slow_probe (fresh 0)).0 200 ↔ ((slow_probe (fresh 0)).0 ≡ ok tt)
ready_iff_example = ready_iff "0.1.0" slow_probe (fresh 0)

rows_packed_example :
    (no_overlap (rows sre_overview_rows new_layout).panels ≡ true)
    × (all fits (rows sre_overview_rows new_layout).panels ≡ true)
    × (ids_from 1 (rows sre_overview_rows new_layout).panels ≡ true)
unfolding panel
rows_packed_example = rows_packed sre_overview_rows refl

uuid4-IsRequestId : (w : World) → IsRequestId (uuid4 w).0
uuid4-IsRequestId w = record { nonempty = omega arith; fits = omega arith; characters = refl }

request_id_or_new-IsRequestId_example :
    IsRequestId (request_id_or_new uuid4 (some (codes "two words")) (fresh 0).world).0
request_id_or_new-IsRequestId_example =
    request_id_or_new-IsRequestId uuid4 uuid4-IsRequestId (some (codes "two words")) (fresh 0).world

request_observability-Observed_example :
    Observed request
      (codes "client-1")
      (route_run clock uuid4 request (lookup_route addresses clock uuid4 service none) (fresh 0)).1
      (route_run clock uuid4 request (lookup_route addresses clock uuid4 service none) (fresh 0)).0
      (request_observability clock uuid4 request
        (lookup_route addresses clock uuid4 service none)
        (fresh 0))
unfolding request_id_or_new matches_pattern valid_request_id
request_observability-Observed_example =
    request_observability-Observed clock uuid4 request
      (lookup_route addresses clock uuid4 service none) (fresh 0)
