-- ===== src/Service/Counting/Assembly.antt =====
-- The repository and the provider of lifespan.py count no lookups: what they record are other series.
use arvan_ip_country_api.Prelude.{
  ℕ, ◌≡◌, refl, ap, ◌∙◌, String, Bool, true, false, Option, List, [], ◌++◌, Bool-cases, inl, inr,
  append-nil,
}
use arvan_ip_country_api.Text.{Text, UnicodeTables}
use arvan_ip_country_api.Domain.Errors.{
  AppError, provider_timeout, provider_authentication, provider_rate_limited,
  provider_invalid_response, provider_unavailable,
}
use arvan_ip_country_api.Domain.IpValidation.{IpLibrary}
use arvan_ip_country_api.Domain.Models.{CacheRecord, GeoIpResult}
use arvan_ip_country_api.Observability.Metrics.{
  ApplicationMetrics, Sample, recorded, database_operation, database_error,
}
use arvan_ip_country_api.Effects.{Result, ok, raised, app, State, Clock}
use arvan_ip_country_api.Database.{Row, Session}
use arvan_ip_country_api.Repository.{
  get, upsert, is_sql_error, postgres_repository, upsert_statement,
}
use arvan_ip_country_api.Repository.Runs.{
  before_read, before_write, write_time, get-ok, get-raised, upsert-ok, upsert-raised,
}
use arvan_ip_country_api.Providers.Ipinfo.{IpinfoLiteProvider, Retrying, lookup, ipinfo_provider}
use arvan_ip_country_api.Providers.Ipinfo.Requests.{IsHttpClient, error_samples, app_samples}
use arvan_ip_country_api.Providers.Ipinfo.Retries.{IsRetrying}
use arvan_ip_country_api.Providers.Ipinfo.Laws.{request_samples, lookup_run}
use arvan_ip_country_api.Service
use arvan_ip_country_api.Service.Assembly.{ipinfo_service}
use arvan_ip_country_api.Service.Counting.{
  counted, counted-append, Keeps, Keeps-trans, Counted, IsSilent,
}
use arvan_ip_country_api.Service.Counting.Lookups.{lookup-Counted}

operation-Keeps :
    (operation : String) (d : ℕ) (m : ApplicationMetrics)
    → Keeps m (database_operation operation d m)
unfolding database_operation
operation-Keeps operation d m = elim (Bool-cases m.enabled) [
  | inl y ↦ rw y record {
    enabled = refl;
    lookups = counted-append m.samples _ ∙ append-nil (counted m.samples);
  }
  | inr y ↦ rw y record { enabled = refl; lookups = refl }
]

error-Keeps :
    (operation type : String) (m : ApplicationMetrics) → Keeps m (database_error operation type m)
unfolding database_error
error-Keeps operation type m = elim (Bool-cases m.enabled) [
  | inl y ↦ rw y record {
    enabled = refl;
    lookups = counted-append m.samples _ ∙ append-nil (counted m.samples);
  }
  | inr y ↦ rw y record { enabled = refl; lookups = refl }
]

counted-app_samples :
    (e : AppError) (more : List Sample) → counted (app_samples e ++ more) ≡ counted more
counted-app_samples provider_timeout more = refl
counted-app_samples provider_authentication more = refl
counted-app_samples provider_rate_limited more = refl
counted-app_samples provider_invalid_response more = refl
counted-app_samples provider_unavailable more = refl
counted-app_samples _ more = refl

counted-error :
    (b : Bool) (r : Result GeoIpResult) (d : ℕ)
    → counted (recorded b (error_samples r ++ request_samples r d)) ≡ []
counted-error false r d = refl
counted-error true (ok r) d = refl
counted-error true (raised (app e)) d = counted-app_samples e _
counted-error true (raised _) d = refl

module _ {A W : Type 0} (lib : IpLibrary A) (session : Session W) (clock : Clock W) where
  get-Keeps : (ip : A) (s : State W) → Keeps s.metrics (get lib session clock ip s).1.metrics
  get-Keeps ip s = go (session.scalar (lib.str ip) (before_read lib session clock s)).0 refl
    where
      go :
          (r : Result (Option Row))
          → (session.scalar (lib.str ip) (before_read lib session clock s)).0 ≡ r
          → Keeps s.metrics (get lib session clock ip s).1.metrics
      go (ok row) h = rw (get-ok lib session clock ip s row h) (operation-Keeps "read" _ s.metrics)
      go (raised e) h = elim (Bool-cases (is_sql_error e)) [
        | inl y ↦
            rw (get-raised lib session clock ip s e h, y)
              (Keeps-trans s.metrics _ _ (error-Keeps "read" "unavailable" s.metrics)
                (operation-Keeps "read" _ _))
        | inr y ↦ rw (get-raised lib session clock ip s e h, y) (operation-Keeps "read" _ s.metrics)
      ]

  upsert-Keeps :
      (rec : CacheRecord A) (s : State W)
      → Keeps s.metrics (upsert lib session clock rec s).1.metrics
  upsert-Keeps rec s =
      go
        (session.execute (upsert_statement lib rec (write_time lib session clock s))
          (before_write lib session clock s)).0
        refl
    where
      go :
          (r : Result (Unit {0}))
          → (session.execute
              (upsert_statement lib rec (write_time lib session clock s))
              (before_write lib session clock s)).0
            ≡ r
          → Keeps s.metrics (upsert lib session clock rec s).1.metrics
      go (ok tt) h = rw (upsert-ok lib session clock rec s h) (operation-Keeps "upsert" _ s.metrics)
      go (raised e) h = elim (Bool-cases (is_sql_error e)) [
        | inl y ↦
            rw (upsert-raised lib session clock rec s e h, y)
              (Keeps-trans s.metrics _ _ (error-Keeps "upsert" "unavailable" s.metrics)
                (operation-Keeps "upsert" _ _))
        | inr y ↦
            rw (upsert-raised lib session clock rec s e h, y) (operation-Keeps "upsert" _ s.metrics)
      ]

  module _ (tables : UnicodeTables) (retrying : Retrying W) (provider : IpinfoLiteProvider W)
      (law : IsHttpClient provider.client) (repeats : IsRetrying retrying) (ttl_seconds : ℕ) where
    lookup-Keeps :
        (ip : A) (s : State W)
        → Keeps s.metrics (lookup lib clock tables retrying provider ip s).1.metrics
    lookup-Keeps ip s =
        let run = lookup_run lib clock tables retrying provider law repeats ip s in
        record {
          enabled = run.enabled;
          lookups =
              ap counted run.samples
              ∙ counted-append s.metrics.samples _
              ∙ ap (λ l. counted s.metrics.samples ++ l)
                  (counted-error s.metrics.enabled _ run.elapsed)
              ∙ append-nil (counted s.metrics.samples);
        }

    pub ipinfo-IsSilent :
        IsSilent lib clock (ipinfo_service lib session clock tables retrying provider ttl_seconds)
    ipinfo-IsSilent = record {
      get_lem = unfold postgres_repository in get-Keeps;
      upsert_lem = unfold postgres_repository in upsert-Keeps;
      lookup_lem = unfold ipinfo_provider in lookup-Keeps;
    }

    -- Whatever the database and the network do, in IPinfo mode with metrics enabled a lookup that answers
    -- is counted once, as a success of the source that the answer names, and one that raises is not
    -- counted, or once as an error of the provider, if the HTTP client raises no class of the program and
    -- tenacity makes the attempts that it is told to make.
    pub ipinfo_lookup-Counted :
        (value : Text) (s : State W)
        → s.metrics.enabled ≡ true
        → Counted
            (counted s.metrics.samples)
            (Service.lookup lib clock
              (ipinfo_service lib session clock tables retrying provider ttl_seconds)
              value
              s).0
            (Service.lookup lib clock
              (ipinfo_service lib session clock tables retrying provider ttl_seconds)
              value
              s).1.metrics
    ipinfo_lookup-Counted value s on =
        lookup-Counted lib clock
          (ipinfo_service lib session clock tables retrying provider ttl_seconds) ipinfo-IsSilent
          value s on
