-- ===== src/Api/Application/Observed.antt =====
-- What the middleware records of a request, whatever its route does.
use arvan_ip_country_api.Prelude.{
  ℕ, ◌-◌, ◌≡◌, refl, sym, ap, Bool, true, false, some, List, [], ◌∷◌, ◌++◌, append-nil, Bool-cases,
  inl, inr, if◌then◌else◌,
}
use arvan_ip_country_api.Text.{Text}
use arvan_ip_country_api.Observability.Metrics
use arvan_ip_country_api.Observability.Metrics.{Sample, Counter, Histogram, inc, observe, recorded}
use arvan_ip_country_api.Effects.{Exec, Result, ok, raised, State, Clock, reach}
use arvan_ip_country_api.Api.{Response}
use arvan_ip_country_api.Api.Context.{request_id_or_new}
use arvan_ip_country_api.Api.Application.{
  Request, Tagged, is_excluded, route_path, request_event, count_request, request_observability,
  finish,
}

-- One request with its status, and its duration; nothing for the paths that are excluded.
abbrev pub samples_of : Request → Response → ℕ → List Sample
samples_of request response elapsed =
    if is_excluded request.path
    then []
    else inc Counter.http_requests (
        Metrics.name request.method
        ∷ Metrics.name (route_path request.route)
        ∷ Metrics.number response.status_code
        ∷ [])
      ∷ observe Histogram.http_duration
          (Metrics.name request.method ∷ Metrics.name (route_path request.route) ∷ []) elapsed
      ∷ []

-- A response is passed on with the request's id, counted behind all that the route has counted, and logged
-- last; an exception is passed on with nothing added.
pub data Observed {W : Type 0} (request : Request) (rid : Text) (t : State W)
    : Result Response → Result Tagged × State W → Type 0 where
  responded :
      (response : Response) (elapsed : ℕ) (u : State W)
      → u.metrics.samples
        ≡ t.metrics.samples ++ recorded t.metrics.enabled (samples_of request response elapsed)
      → u.log ≡ t.log ++ request_event request rid response elapsed ∷ []
      → u.calls ≡ t.calls
      → Observed request rid t
          (ok response)
          (ok (record { response = response; x_request_id = some rid }), u)
  passed : (e : _) → Observed request rid t (raised e) (raised e, t)

recorded-nil : (b : Bool) → recorded b [] ≡ []
recorded-nil true = refl
recorded-nil false = refl

module _ {W : Type 0} (platform : Clock W) (uuid4 : W → Text × W) where
  -- What the route does: its id, and how it ends.
  abbrev pub id_of : Request → State W → Text
  id_of request s = (request_id_or_new uuid4 request.x_request_id s.world).0

  abbrev pub route_run : Request → (Text → Exec W Response) → State W → Result Response × State W
  route_run request call_next s =
      call_next (id_of request s)
        (reach (platform.perf_counter (request_id_or_new uuid4 request.x_request_id s.world).1).1 s)

  module _ (request : Request) (response : Response) (elapsed : ℕ) (u : State W) where
    samples-count_request :
        (count_request platform uuid4 request response elapsed u).metrics.samples
        ≡ u.metrics.samples ++ recorded u.metrics.enabled (samples_of request response elapsed)
    unfolding Metrics.http_request
    samples-count_request = elim (Bool-cases (is_excluded request.path)) [
      | inl y ↦ rw (y, recorded-nil u.metrics.enabled) (sym (append-nil u.metrics.samples))
      | inr n ↦ elim (Bool-cases u.metrics.enabled) [
        | inl y ↦ rw (n, y) refl
        | inr m ↦ rw (n, m) (sym (append-nil u.metrics.samples))
      ]
    ]

    log-count_request : (count_request platform uuid4 request response elapsed u).log ≡ u.log
    log-count_request = elim (Bool-cases (is_excluded request.path)) [
      | inl y ↦ rw y refl
      | inr n ↦ rw n refl
    ]

    calls-count_request : (count_request platform uuid4 request response elapsed u).calls ≡ u.calls
    calls-count_request = elim (Bool-cases (is_excluded request.path)) [
      | inl y ↦ rw y refl
      | inr n ↦ rw n refl
    ]

  finish-Observed :
      (request : Request) (rid : Text) (started : ℕ) (r : Result Response) (t : State W)
      → Observed request rid t r (finish platform uuid4 request rid started r t)
  finish-Observed request rid started (raised e) t = passed e
  finish-Observed request rid started (ok response) t =
      let elapsed = (platform.perf_counter t.world).0 - started in
      let u = reach (platform.perf_counter t.world).1 t in
      responded response elapsed _ (samples-count_request request response elapsed u)
        (ap (λ l. l ++ request_event request rid response elapsed ∷ [])
          (log-count_request request response elapsed u))
        (calls-count_request request response elapsed u)

  -- Whatever a route does, a response that it returns is sent with the request's id, recorded once behind all that
  -- the route has recorded, with the method, the route and the status, unless the path is excluded or metrics are
  -- disabled, and logged last under the same id. An exception that it raises is passed on, and nothing is recorded.
  pub request_observability-Observed :
      (request : Request) (call_next : Text → Exec W Response) (s : State W)
      → Observed request
          (id_of request s)
          (route_run request call_next s).1
          (route_run request call_next s).0
          (request_observability platform uuid4 request call_next s)
  unfolding request_observability
  request_observability-Observed request call_next s =
      finish-Observed request (id_of request s) _ (route_run request call_next s).0
        (route_run request call_next s).1
