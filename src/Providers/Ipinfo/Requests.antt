-- ===== src/Providers/Ipinfo/Requests.antt =====
-- One request of providers/ipinfo.py: what it calls, raises and records.
use arvan_ip_country_api.Prelude.{
  String, ◌≡◌, refl, Bool, true, false, List, [], ◌∷◌, ◌++◌, append-nil, arith,
}
use arvan_ip_country_api.Text.{Text, UnicodeTables}
use arvan_ip_country_api.Domain.Errors.{
  AppError, provider_timeout, provider_authentication, provider_rate_limited,
  provider_invalid_response, provider_unavailable,
}
use arvan_ip_country_api.Domain.IpValidation.{IpLibrary}
use arvan_ip_country_api.Observability.Metrics
use arvan_ip_country_api.Observability.Metrics.{Sample, Counter, inc, recorded}
use arvan_ip_country_api.Effects.{
  Exception, Result, ok, raised, app, retryable_error, retryable_timeout, http_get, State, Clock,
}
use arvan_ip_country_api.Providers.Ipinfo.{
  name, HttpClient, IpinfoLiteProvider, Response, Retrying, as_retryable, check_status, path_of,
  headers_of, request, send,
}

-- An exception of a library: none of the program's own classes.
unfoldable pub is_foreign : Exception → Bool
is_foreign (app e) = false
is_foreign retryable_error = false
is_foreign retryable_timeout = false
is_foreign _ = true

-- httpx raises no class of the program.
pub record IsHttpClient {W : Type 0} (client : HttpClient W) : Type 0 where
  pub foreign :
      (path : Text) (headers : List (String × Text)) (w : W) {e : Exception}
      → (client.get path headers w).0 ≡ raised e
      → is_foreign e ≡ true

abbrev pub error_sample : String → List Sample
error_sample error_type =
    inc Counter.provider_errors (Metrics.name name ∷ Metrics.name error_type ∷ []) ∷ []

-- The error that is counted for the exception that leaves a method.
abbrev pub app_samples : AppError → List Sample
app_samples provider_timeout = error_sample "timeout"
app_samples provider_authentication = error_sample "authentication"
app_samples provider_rate_limited = error_sample "rate_limited"
app_samples provider_invalid_response = error_sample "invalid_response"
app_samples provider_unavailable = error_sample "unavailable"
app_samples _ = []

abbrev pub error_samples : {R : Type 0} → Result R → List Sample
error_samples (ok r) = []
error_samples (raised (app e)) = app_samples e
error_samples (raised _) = []

-- The errors that a request raises on purpose: the statuses that are not to be retried.
unfoldable pub is_refusal : AppError → Bool
is_refusal provider_authentication = true
is_refusal provider_rate_limited = true
is_refusal provider_invalid_response = true
is_refusal _ = false

-- What a request raises: a refusal, one of the private classes, or what is foreign.
abbrev pub RaisedByRequest : {R : Type 0} → Result R → Type 0
RaisedByRequest (ok r) = Unit
RaisedByRequest (raised (app e)) = is_refusal e ≡ true
RaisedByRequest (raised e) = Unit

-- What one request does to the state that it finds.
pub record RequestRun {W R : Type 0} (path : Text) (s : State W) (o : Result R × State W)
    : Type 0 where
  pub enabled : o.1.metrics.enabled ≡ s.metrics.enabled
  pub samples :
      o.1.metrics.samples ≡ s.metrics.samples ++ recorded s.metrics.enabled (error_samples o.0)
  pub calls : o.1.calls ≡ s.calls ++ http_get path ∷ []
  pub log : o.1.log ≡ s.log
  pub raises : RaisedByRequest o.0

-- The same for the state that `check_status` finds, which has the call already.
record CheckRun {W : Type 0} (s : State W) (o : Result Response × State W) : Type 0 where
  enabled : o.1.metrics.enabled ≡ s.metrics.enabled
  samples :
      o.1.metrics.samples ≡ s.metrics.samples ++ recorded s.metrics.enabled (error_samples o.0)
  calls : o.1.calls ≡ s.calls
  log : o.1.log ≡ s.log
  raises : RaisedByRequest o.0

module _ {W : Type 0} where
  check_status_run : (response : Response) (s : State W) → CheckRun s (check_status response s)
  unfolding check_status Metrics.provider_error is_refusal
  check_status_run response s = record {
    enabled = ground arith;
    samples = ground (arith, append-nil s.metrics.samples);
    calls = ground arith;
    log = ground arith;
    raises = ground arith;
  }

  foreign_run :
      (e : Exception) (s : State W) → is_foreign e ≡ true → CheckRun s (raised (as_retryable e), s)
  unfolding is_foreign as_retryable
  foreign_run e s h = record {
    enabled = refl;
    samples = ground (arith, append-nil s.metrics.samples);
    calls = refl;
    log = refl;
    raises = ground arith;
  }

module _ {A W : Type 0} (lib : IpLibrary A) (clock : Clock W) (tables : UnicodeTables)
    (retrying : Retrying W) (self : IpinfoLiteProvider W) (law : IsHttpClient self.client) where
  abbrev sent : A → State W → State W
  sent ip s = (send lib clock tables retrying self ip s).1

  -- What is left of `request` when the client has answered.
  answered_run :
      (ip : A) (s : State W) (r : Result Response)
      → (self.client.get (path_of lib ip) (headers_of self.token) s.world).0 ≡ r
      → CheckRun (sent ip s) (request lib clock tables retrying self ip s)
  unfolding request
  answered_run ip s (ok response) h = rw h (check_status_run response (sent ip s))
  answered_run ip s (raised e) h = rw h (foreign_run e (sent ip s) (law.foreign _ _ _ h))

  pub request_run :
      (ip : A) (s : State W)
      → RequestRun (path_of lib ip) s (request lib clock tables retrying self ip s)
  request_run ip s =
      let c = answered_run ip s _ refl in
      record {
        enabled = c.enabled;
        samples = c.samples;
        calls = c.calls;
        log = c.log;
        raises = c.raises;
      }
