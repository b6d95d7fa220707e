-- ===== src/Providers/Ipinfo/Laws.antt =====
-- The theorem about `lookup` of providers/ipinfo.py, over a client and a retry loop that behave as
-- documented.
use native.Mathlib.Numerals.{add-one}
use arvan_ip_country_api.Prelude.{
  String, if◌then◌else◌, true, false, Bool, ℕ, suc, ◌+◌, ◌-◌, ◌≤◌, ◌≡◌, ◌∙◌, true, List, [], ◌∷◌,
  ◌++◌, append_assoc, arith, replicate,
}
use arvan_ip_country_api.Text.{Text, UnicodeTables}
use arvan_ip_country_api.Domain.IpValidation.{IpLibrary}
use arvan_ip_country_api.Domain.Models.{GeoIpResult}
use arvan_ip_country_api.Observability.Metrics
use arvan_ip_country_api.Observability.Metrics.{Sample, Counter, Histogram, inc, observe, recorded}
use arvan_ip_country_api.Effects.{Result, ok, raised, State, Clock, http_get, reach, catch}
use arvan_ip_country_api.Providers.Ipinfo.{
  name, IpinfoLiteProvider, Response, Retrying, is_retryable, path_of, lookup, translate, outcome,
  attempt_lookup, read_payload, close,
}
use arvan_ip_country_api.Providers.Ipinfo.Requests.{IsHttpClient, error_samples}
use arvan_ip_country_api.Providers.Ipinfo.Retries.{IsRetrying, run-eq-retry_loop}
use arvan_ip_country_api.Providers.Ipinfo.Lookups.{LoopRun, req, loop, loop_run}
use arvan_ip_country_api.Providers.Ipinfo.Outcomes.{
  Leaves, TryRun, is_unreached, answered_run, raised_run, read_payload_cases,
}

-- The samples of the `finally` block.
abbrev pub request_samples : Result GeoIpResult → ℕ → List Sample
request_samples r elapsed =
    inc Counter.provider_requests (Metrics.name name ∷ Metrics.name (outcome r) ∷ [])
    ∷ observe Histogram.provider_duration (Metrics.name name ∷ []) elapsed
    ∷ []

-- Everything that a lookup does: what it records, the requests that it makes, and how it ends.
pub record LookupRun {W : Type 0} (tables : UnicodeTables) (path : Text) (n : ℕ) (s : State W)
    (o : Result GeoIpResult × State W) : Type 0 where
  pub elapsed : ℕ
  pub enabled : o.1.metrics.enabled ≡ s.metrics.enabled
  pub samples :
      o.1.metrics.samples
      ≡ s.metrics.samples
        ++ recorded s.metrics.enabled (error_samples o.0 ++ request_samples o.0 elapsed)
  pub log : o.1.log ≡ s.log
  pub leaves : Leaves tables o.0
  pub more : ℕ
  pub at_most : more ≤ n
  pub calls : o.1.calls ≡ s.calls ++ replicate (suc more) (http_get path)
  pub exhausted : is_unreached o.0 ≡ true → more ≡ n

samples-provider_request :
    (result : String) (d : ℕ) (m : Metrics.ApplicationMetrics)
    → (Metrics.provider_request name result d m).samples ≡ (
        if m.enabled
        then m.samples
          ++ (inc Counter.provider_requests (Metrics.name name ∷ Metrics.name result ∷ [])
              ∷ observe Histogram.provider_duration (Metrics.name name ∷ []) d
              ∷ [])
        else m.samples)
unfolding Metrics.provider_request
samples-provider_request result d m = ground arith

-- Samples before and behind the end of the `try` statement.
close_samples :
    (a b : Bool) (x new more : List Sample)
    → b ≡ a
    → {y : List Sample} → y ≡ x ++ recorded a new
    → (if b then y ++ more else y) ≡ x ++ recorded a (new ++ more)
close_samples true b x new more p q = rw (p, q) (append_assoc x new more)
close_samples false b x new more p q = rw p q

module _ {A W : Type 0} (lib : IpLibrary A) (clock : Clock W) (tables : UnicodeTables)
    (retrying : Retrying W) (self : IpinfoLiteProvider W) (law : IsHttpClient self.client)
    (repeats : IsRetrying retrying) where
  abbrev body : A → State W → Result GeoIpResult × State W
  body ip = catch (attempt_lookup lib clock tables retrying self ip) translate

  run-eq-loop :
      (ip : A) (s : State W)
      → retrying.run
          (self.max_retries + 1)
          is_retryable
          (req lib clock tables retrying self law ip)
          s
        ≡ loop lib clock tables retrying self law self.max_retries ip s
  run-eq-loop ip s =
      rw add-one (run-eq-retry_loop retrying repeats is_retryable self.max_retries _ s)

  try_run : (ip : A) (s : State W) → TryRun tables (path_of lib ip) self.max_retries s (body ip s)
  try_run ip s =
      go _ (run-eq-loop ip s) (loop_run lib clock tables retrying self law self.max_retries ip s)
    where
      go :
          (o : Result Response × State W)
          → retrying.run
              (self.max_retries + 1)
              is_retryable
              (req lib clock tables retrying self law ip)
              s
            ≡ o
          → LoopRun (path_of lib ip) self.max_retries s o
          → TryRun tables (path_of lib ip) self.max_retries s (body ip s)
      go (ok response, t) e l = rw e (
          answered_run tables self.max_retries _ s t response (read_payload tables response.json) l
            (read_payload_cases tables response.json))
      go (raised x, t) e l = rw e (raised_run tables self.max_retries _ s t x l)

  -- The `finally` block behind the `try` statement.
  close_run :
      (path : Text) (n started : ℕ) (w : W) (s : State W) (o : Result GeoIpResult × State W)
      → TryRun tables path n (reach w s) o
      → LookupRun tables path n s (close lib clock tables retrying self started o)
  unfolding Metrics.provider_request
  close_run path n started w s (r, u) t = record {
    elapsed = (clock.perf_counter u.world).0 - started;
    enabled = ground (arith, t.enabled);
    samples =
        samples-provider_request (outcome r) ((clock.perf_counter u.world).0 - started) u.metrics
        ∙ close_samples s.metrics.enabled u.metrics.enabled s.metrics.samples (error_samples r)
            (request_samples r ((clock.perf_counter u.world).0 - started)) t.enabled t.samples;
    log = t.log;
    leaves = t.leaves;
    more = t.more;
    at_most = t.at_most;
    calls = t.calls;
    exhausted = t.exhausted;
  }

  -- What a lookup does, whatever the network does, if the HTTP client raises no class of the program
  -- and tenacity makes the attempts that it is told to make. The lookup makes at least one request
  -- for the address's path and at most one more for each retry, all of them if it reports a timeout
  -- or unavailability. It returns a country that fits the table's columns or raises one of the
  -- provider's errors or an exception of a library that is no ValueError. If metrics are enabled, it
  -- records the one error that it raises, if it is the provider's, and then one request with its
  -- outcome and duration, and nothing else.
  pub lookup_run :
      (ip : A) (s : State W)
      → LookupRun tables
          (path_of lib ip)
          self.max_retries
          s
          (lookup lib clock tables retrying self ip s)
  unfolding lookup
  lookup_run ip s =
      let w = (clock.perf_counter s.world).1 in
      close_run (path_of lib ip) self.max_retries (clock.perf_counter s.world).0 w s _
        (try_run ip (reach w s))
