-- ===== src/Providers/Ipinfo.antt =====
-- providers/ipinfo.py: the client of IPinfo Lite, over httpx's client and tenacity's AsyncRetrying.
pub mod Laws
pub mod Lookups
pub mod Outcomes
pub mod Payload
pub mod Requests
pub mod Retries
use arvan_ip_country_api.Prelude.{
  ℕ, ◌+◌, String, Bool, true, false, ◌||◌, Option, none, some, List, [], ◌∷◌, ◌++◌, leb, ◌==◌,
  if◌then◌else◌,
}
use arvan_ip_country_api.Text.{Text, codes, UnicodeTables}
use arvan_ip_country_api.Domain.Errors.{
  provider_timeout, provider_authentication, provider_rate_limited, provider_invalid_response,
  provider_unavailable,
}
use arvan_ip_country_api.Domain.IpValidation.{IpLibrary}
use arvan_ip_country_api.Domain.Models.{GeoIpResult}
use arvan_ip_country_api.Observability.Metrics
use arvan_ip_country_api.Effects.{
  Exception, Exec, Result, ok, raised, app, retryable_error, retryable_timeout, value_error,
  httpx_timeout, httpx_request_error, httpx_decoding_error, http_get, State, Clock, read_counter,
  count_elapsed, count, reach, note, throw, catch, ◌>>=◌,
}
use arvan_ip_country_api.Providers.{GeoIpProvider}
use arvan_ip_country_api.Json.{Json}
use Payload.{IpinfoLiteResponse, parse}

-- What the program reads of an `httpx.Response`; `none` is the ValueError of `response.json()`.
pub record Response : Type 0 where
  pub status_code : ℕ
  pub json : Option Json

-- `client.get(path, headers=...)`
pub record HttpClient (W : Type 0) : Type 0 where
  pub get : Text → List (String × Text) → W → Result Response × W

-- `AsyncRetrying(stop=stop_after_attempt(n), retry=..., reraise=True)` around an attempt, and the pause
-- before the next one, which may depend on the number of attempts that are left.
pub record Retrying (W : Type 0) : Type 0 where
  pub run : ℕ → (Exception → Bool) → Exec W Response → Exec W Response
  pub pause : ℕ → W → W

abbrev pub name : String
name = "ipinfo"

-- The constructor's arguments.
pub record IpinfoLiteProvider (W : Type 0) : Type 0 where
  pub client : HttpClient W
  pub token : Text
  pub max_retries : ℕ

-- `(_RetryableProviderError, _RetryableProviderTimeout)`
unfoldable pub is_retryable : Exception → Bool
is_retryable retryable_error = true
is_retryable retryable_timeout = true
is_retryable _ = false

-- `except httpx.TimeoutException`, `except httpx.RequestError`
unfoldable pub as_retryable : Exception → Exception
as_retryable httpx_timeout = retryable_timeout
as_retryable httpx_request_error = retryable_error
as_retryable httpx_decoding_error = retryable_error
as_retryable e = e

unfoldable pub check_status : {W : Type 0} → Response → Exec W Response
check_status response s =
    if response.status_code == 401 || response.status_code == 403
    then (
      raised (app provider_authentication),
      count (Metrics.provider_error name "authentication") s,
    )
    else if response.status_code == 429
    then (raised (app provider_rate_limited), count (Metrics.provider_error name "rate_limited") s)
    else if leb 500 response.status_code
    then (raised retryable_error, s)
    else if leb 400 response.status_code
    then (
      raised (app provider_invalid_response),
      count (Metrics.provider_error name "invalid_response") s,
    )
    else (ok response, s)

abbrev pub path_of : {A : Type 0} → IpLibrary A → A → Text
path_of lib ip = codes "/lite/" ++ lib.str ip

abbrev pub headers_of : Text → List (String × Text)
headers_of token = ("Authorization", codes "Bearer " ++ token) ∷ []

-- The `except` clauses of `lookup`.
unfoldable pub translate : {W R : Type 0} → Exception → Exec W R
translate retryable_timeout s =
    (raised (app provider_timeout), count (Metrics.provider_error name "timeout") s)
translate retryable_error s =
    (raised (app provider_unavailable), count (Metrics.provider_error name "unavailable") s)
translate httpx_decoding_error s = (
  raised (app provider_invalid_response),
  count (Metrics.provider_error name "invalid_response") s,
)
translate value_error s = (
  raised (app provider_invalid_response),
  count (Metrics.provider_error name "invalid_response") s,
)
translate e s = (raised e, s)

-- The result made of a parsed payload.
abbrev pub of_parsed : Option IpinfoLiteResponse → Result GeoIpResult
of_parsed none = raised value_error
of_parsed (some parsed) = ok (record {
  country_code = parsed.country_code;
  country_name = parsed.country;
  provider = codes name;
})

-- `self._parse(response.json())`, and the result made of it
abbrev pub read_payload : UnicodeTables → Option Json → Result GeoIpResult
read_payload tables none = raised value_error
read_payload tables (some payload) = of_parsed (parse tables payload)

-- The local variable `result` when the `finally` block runs.
abbrev pub outcome : {R : Type 0} → Result R → String
outcome (ok r) = "success"
outcome (raised e) = "error"

module _ {A W : Type 0} (lib : IpLibrary A) (clock : Clock W) (tables : UnicodeTables)
    (retrying : Retrying W) (self : IpinfoLiteProvider W) where
  abbrev pub send : A → Exec W Response
  send ip s =
      let (r, w) = self.client.get (path_of lib ip) (headers_of self.token) s.world in
      (r, note (http_get (path_of lib ip)) (reach w s))

  -- `_request`
  unfoldable pub request : A → Exec W Response
  request ip = catch (send ip) (λ e. throw (as_retryable e)) >>= check_status

  -- The `try` block.
  abbrev pub attempt_lookup : A → Exec W GeoIpResult
  attempt_lookup ip = do
    response ← retrying.run (self.max_retries + 1) is_retryable (request ip)
    λ s. (read_payload tables response.json, s)

  -- The `finally` block.
  abbrev pub close : ℕ → Result GeoIpResult × State W → Result GeoIpResult × State W
  close started (r, s) =
      (r, count_elapsed clock (Metrics.provider_request name (outcome r)) started s)

  unfoldable pub lookup : A → Exec W GeoIpResult
  lookup ip = do
    started ← read_counter clock
    λ s. close started (catch (attempt_lookup ip) translate s)

  unfoldable pub ipinfo_provider : GeoIpProvider A W
  ipinfo_provider = record { lookup = lookup }
