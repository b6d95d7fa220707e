-- ===== src/Providers/Ipinfo/Outcomes.antt =====
-- `lookup` of providers/ipinfo.py: the number of its requests, the exceptions that leave it, the
-- samples that it records and the country that it returns.
use arvan_ip_country_api.Prelude.{
  ℕ, suc, ◌≤◌, ◌≡◌, refl, Bool, true, false, Option, none, some, ◌++◌, append-nil, arith, length,
  replicate,
}
use arvan_ip_country_api.Text.{Text, codes, UnicodeTables}
use arvan_ip_country_api.Domain.Errors.{
  AppError, provider_timeout, provider_authentication, provider_rate_limited,
  provider_invalid_response, provider_unavailable,
}
use arvan_ip_country_api.Domain.Models.{GeoIpResult}
use arvan_ip_country_api.Observability.Metrics
use arvan_ip_country_api.Observability.Metrics.{recorded}
use arvan_ip_country_api.Effects.{
  Exception, Result, ok, raised, app, retryable_error, retryable_timeout, value_error,
  httpx_decoding_error, http_get, State, catch,
}
use arvan_ip_country_api.Providers.Ipinfo.{
  name, Response, is_retryable, translate, read_payload, of_parsed,
}
use arvan_ip_country_api.Json.{Json}
use arvan_ip_country_api.Providers.Ipinfo.Payload.{
  parse, is_alpha, parse-IsClean, IpinfoLiteResponse,
}
use arvan_ip_country_api.Providers.Ipinfo.Requests.{error_samples, is_refusal}
use arvan_ip_country_api.Providers.Ipinfo.Lookups.{LoopRun}

-- The errors that `lookup` may raise on purpose.
unfoldable pub is_provider_error : AppError → Bool
is_provider_error provider_timeout = true
is_provider_error provider_authentication = true
is_provider_error provider_rate_limited = true
is_provider_error provider_invalid_response = true
is_provider_error provider_unavailable = true
is_provider_error _ = false

refusal_lem : (e : AppError) → is_refusal e ≡ true → is_provider_error e ≡ true
unfolding is_refusal is_provider_error
refusal_lem provider_timeout h = refl
refusal_lem _ h = ground arith

-- The outcomes that say that the provider could not be reached.
abbrev pub is_unreached : Result GeoIpResult → Bool
is_unreached (raised (app provider_timeout)) = true
is_unreached (raised (app provider_unavailable)) = true
is_unreached _ = false

-- A country that the table's columns can take, with a code of two letters.
pub record IsCountry (tables : UnicodeTables) (r : GeoIpResult) : Type 0 where
  pub provider : r.provider ≡ codes name
  pub code_length : length r.country_code ≡ 2
  pub code_alpha : is_alpha tables r.country_code ≡ true
  pub name_nonempty : 1 ≤ length r.country_name
  pub name_fits : length r.country_name ≤ 128

-- What leaves `lookup`: a clean country, an error of the provider, or an exception that none of its
-- handlers is for.
abbrev pub Leaves : UnicodeTables → Result GeoIpResult → Type 0
Leaves tables (ok r) = IsCountry tables r
Leaves tables (raised (app e)) = is_provider_error e ≡ true
Leaves tables (raised retryable_error) = ⊥
Leaves tables (raised retryable_timeout) = ⊥
Leaves tables (raised value_error) = ⊥
Leaves tables (raised httpx_decoding_error) = ⊥
Leaves tables (raised e) = Unit

-- What the `try` statement does, without its `finally` block.
pub record TryRun {W : Type 0} (tables : UnicodeTables) (path : Text) (n : ℕ) (s : State W)
    (o : Result GeoIpResult × State W) : Type 0 where
  pub enabled : o.1.metrics.enabled ≡ s.metrics.enabled
  pub samples :
      o.1.metrics.samples ≡ s.metrics.samples ++ recorded s.metrics.enabled (error_samples o.0)
  pub log : o.1.log ≡ s.log
  pub leaves : Leaves tables o.0
  pub more : ℕ
  pub at_most : more ≤ n
  pub calls : o.1.calls ≡ s.calls ++ replicate (suc more) (http_get path)
  pub exhausted : is_unreached o.0 ≡ true → more ≡ n

refusal_is_reached : (e : AppError) → is_refusal e ≡ true → is_unreached (raised (app e)) ≡ true → ⊥
unfolding is_refusal
refusal_is_reached provider_timeout h u = cc
refusal_is_reached _ h u = cc

-- What the payload of a response may give.
abbrev pub Read : UnicodeTables → Result GeoIpResult → Type 0
Read tables (ok r) = IsCountry tables r
Read tables (raised value_error) = Unit
Read tables (raised e) = ⊥

module _ (tables : UnicodeTables) where
  of_parsed_cases :
      (payload : Json) (p : Option IpinfoLiteResponse)
      → parse tables payload ≡ p
      → Read tables (of_parsed p)
  of_parsed_cases payload none h = tt
  of_parsed_cases payload (some parsed) h =
      let clean = parse-IsClean tables payload parsed h in
      record {
        provider = refl;
        code_length = clean.code_length;
        code_alpha = clean.code_alpha;
        name_nonempty = clean.name_nonempty;
        name_fits = clean.name_fits;
      }

  pub read_payload_cases : (j : Option Json) → Read tables (read_payload tables j)
  read_payload_cases none = tt
  read_payload_cases (some payload) = of_parsed_cases payload (parse tables payload) refl

module _ {W : Type 0} (tables : UnicodeTables) (n : ℕ) (path : Text) (s t : State W) where
  -- A response has come, and its payload is read.
  pub answered_run :
      (response : Response) (p : Result GeoIpResult)
      → LoopRun path n s (ok response, t)
      → Read tables p
      → TryRun tables path n s (catch (λ u. (p, u)) translate t)
  unfolding translate Metrics.provider_error is_provider_error
  answered_run response (ok r) l c = record {
    enabled = l.enabled;
    samples = l.samples;
    log = l.log;
    leaves = c;
    more = l.more;
    at_most = l.at_most;
    calls = l.calls;
    exhausted = λ h. cc;
  }
  answered_run response (raised value_error) l c = record {
    enabled = ground (arith, l.enabled);
    samples = ground (arith, l.samples, l.enabled, append-nil s.metrics.samples);
    log = l.log;
    leaves = refl;
    more = l.more;
    at_most = l.at_most;
    calls = l.calls;
    exhausted = λ h. cc;
  }
  answered_run response (raised e) l c = absurd c

  -- The attempts have ended with an exception.
  pub raised_run :
      (e : Exception) → LoopRun path n s (raised e, t) → TryRun tables path n s (translate e t)
  unfolding translate Metrics.provider_error is_provider_error is_retryable
  raised_run (app e) l = record {
    enabled = l.enabled;
    samples = l.samples;
    log = l.log;
    leaves = refusal_lem e l.raises;
    more = l.more;
    at_most = l.at_most;
    calls = l.calls;
    exhausted = λ h. absurd (refusal_is_reached e l.raises h);
  }
  raised_run _ l = record {
    enabled = ground (arith, l.enabled);
    samples = ground (arith, l.samples, l.enabled, append-nil s.metrics.samples);
    log = l.log;
    leaves = ground arith;
    more = l.more;
    at_most = l.at_most;
    calls = l.calls;
    exhausted = λ h. l.exhausted (ground arith);
  }
