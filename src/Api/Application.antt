-- ===== src/Api/Application.antt =====
-- main.py: the middleware around a route, and the handlers that `create_app` registers. Starlette calls
-- the handlers for AppError and RequestValidationError inside of the middleware, and the one for
-- Exception outside of it, where the context variable has its default again.
pub mod Answers
pub mod Observed
use arvan_ip_country_api.Prelude.{
  ℕ, String, Bool, ◌||◌, Option, none, some, [], ◌∷◌, name_eq, if◌then◌else◌, ◌-◌,
}
use arvan_ip_country_api.Text.{Text}
use arvan_ip_country_api.Domain.IpValidation.{IpLibrary}
use arvan_ip_country_api.Domain.Models.{LookupRequest, LookupResponse}
use arvan_ip_country_api.Observability.Metrics
use arvan_ip_country_api.Effects.{
  Exec, Result, ok, raised, app, is_exception, State, LogEvent, word, text, number, Clock, count,
  write, reach,
}
use arvan_ip_country_api.Service.{IpLookupService}
use arvan_ip_country_api.Api.{
  Response, lookup_response, app_error_handler, validation_error_handler, unexpected_error_handler,
}
use arvan_ip_country_api.Api.Context.{request_id_or_new, unknown}
use arvan_ip_country_api.Api.Lookups.{create_lookup}
use arvan_ip_country_api.Api.Health.{live, ready}

-- What the middleware reads of a request. `route` is the path of the route in the scope, if any.
pub record Request : Type 0 where
  pub method : String
  pub path : String
  pub route : Option String
  pub x_request_id : Option Text

-- `EXCLUDED_METRIC_PATHS`
unfoldable pub is_excluded : String → Bool
is_excluded path =
    name_eq path "/metrics" || name_eq path "/health/live" || name_eq path "/health/ready"

-- `getattr(route, "path", "unmatched")`
abbrev pub route_path : Option String → String
route_path none = "unmatched"
route_path (some path) = path

-- A response with its X-Request-ID header.
pub record Tagged : Type 0 where
  pub response : Response
  pub x_request_id : Option Text

-- The log line; the time is in ticks.
abbrev pub request_event : Request → Text → Response → ℕ → LogEvent
request_event request rid response duration = record {
  level = "info";
  event = "http_request";
  fields =
      ("request_id", text rid)
      ∷ ("method", word request.method)
      ∷ ("route", word (route_path request.route))
      ∷ ("status_code", number response.status_code)
      ∷ ("duration_ms", number duration)
      ∷ [];
}

module _ {W : Type 0} (platform : Clock W) (uuid4 : W → Text × W) where
  abbrev pub count_request : Request → Response → ℕ → State W → State W
  count_request request response duration s =
      if is_excluded request.path
      then s
      else count
          (Metrics.http_request request.method (route_path request.route) response.status_code
            duration)
          s

  -- What follows `await call_next(request)`, if it has returned.
  abbrev pub finish : Request → Text → ℕ → Result Response → Exec W Tagged
  finish request rid started (raised e) s = (raised e, s)
  finish request rid started (ok response) s =
      let (now, w) = platform.perf_counter s.world in
      let counted = count_request request response (now - started) (reach w s) in
      (
        ok (record { response = response; x_request_id = some rid }),
        write (request_event request rid response (now - started)) counted,
      )

  -- `request_observability`; `call_next` runs with the id in the context variable.
  unfoldable pub request_observability : Request → (Text → Exec W Response) → Exec W Tagged
  request_observability request call_next s =
      let (rid, w) = request_id_or_new uuid4 request.x_request_id s.world in
      let (started, v) = platform.perf_counter w in
      let (r, t) = call_next rid (reach v s) in finish request rid started r t

-- The handler for AppError.
abbrev pub answer : {W : Type 0} → Text → Result LookupResponse → Exec W Response
answer rid (ok found) s = (ok (record { status_code = 200; content = lookup_response found }), s)
answer rid (raised (app e)) s = let (r, t) = app_error_handler rid e s in (ok r, t)
answer rid (raised e) s = (raised e, s)

-- The handler for Exception. What is no Exception is raised on.
abbrev pub outermost : {W : Type 0} → Result Tagged → State W → Result Tagged × State W
outermost (ok r) s = (ok r, s)
outermost (raised e) s =
    let (r, t) = unexpected_error_handler unknown s in
    if is_exception e then (ok (record { response = r; x_request_id = none }), t) else (raised e, s)

module _ {A W : Type 0} (lib : IpLibrary A) (platform : Clock W) (uuid4 : W → Text × W)
    (service : IpLookupService A W) where
  -- `POST /api/v1/lookups`; `none` is a body that pydantic refuses.
  unfoldable pub lookup_route : Option LookupRequest → Text → Exec W Response
  lookup_route none rid s = let (r, t) = validation_error_handler rid s in (ok r, t)
  lookup_route (some payload) rid s =
      let (r, t) = create_lookup lib platform service payload s in answer rid r t

  unfoldable pub serve_lookup : Request → Option LookupRequest → Exec W Tagged
  serve_lookup request body s =
      let (r, t) = request_observability platform uuid4 request (lookup_route body) s in
      outermost r t

module _ {W : Type 0} (platform : Clock W) (uuid4 : W → Text × W) where
  -- `GET /health/live` and `GET /health/ready`
  unfoldable pub serve_live : String → Request → Exec W Tagged
  unfolding live
  serve_live version request s =
      let (r, t) =
        request_observability platform uuid4 request (λ rid u. (ok (live version), u)) s in
      outermost r t

  unfoldable pub serve_ready : String → Exec W (Unit {0}) → Request → Exec W Tagged
  unfolding ready
  serve_ready version probe request s =
      let (r, t) = request_observability platform uuid4 request (λ rid. ready version probe) s in
      outermost r t
