-- ===== src/Service.antt =====
-- services/ip_lookup_service.py
pub mod Assembly
pub mod Runs
pub mod Statuses
pub mod Caching
pub mod Concurrency
pub mod Counting
use arvan_ip_country_api.Prelude.{
  ℕ, String, Bool, true, false, Option, none, some, [], ◌∷◌, if◌then◌else◌,
}
use arvan_ip_country_api.Text.{Text}
use arvan_ip_country_api.Domain.Datetime.{Datetime, gt, add_seconds}
use arvan_ip_country_api.Domain.IpValidation.{IpLibrary, validate_public_ip}
use arvan_ip_country_api.Domain.Models.{CacheRecord, GeoIpResult, LookupResult, database, provider}
use arvan_ip_country_api.Observability.Metrics
use arvan_ip_country_api.Effects.{
  Exception, Exec, Result, ok, raised, overflow_error, type_error, is_exception, Clock, LogEvent,
  word, count, write, reach, catch, ◌>>=◌, ◌>>◌,
}
use arvan_ip_country_api.Repository.{LookupRepository}
use arvan_ip_country_api.Providers.{GeoIpProvider}

-- The constructor's arguments. `clock` is `None` or a source of the time.
pub record IpLookupService (A W : Type 0) : Type 0 where
  pub repository : LookupRepository A W
  pub provider : GeoIpProvider A W
  pub ttl_seconds : ℕ
  pub clock : Option (W → Datetime × W)

unfoldable pub completed : String → LogEvent
completed source = record {
  level = "info";
  event = "lookup_completed";
  fields = ("lookup_source", word source) ∷ [];
}

unfoldable pub cached_result : {A : Type 0} → A → CacheRecord A → LookupResult A
cached_result ip cached = record {
  ip = ip;
  country_code = cached.country_code;
  country_name = cached.country_name;
  source = database;
  fetched_at = cached.fetched_at;
  expires_at = cached.expires_at;
}

unfoldable pub new_result : {A : Type 0} → A → CacheRecord A → LookupResult A
new_result ip rec = record {
  ip = ip;
  country_code = rec.country_code;
  country_name = rec.country_name;
  source = provider;
  fetched_at = rec.fetched_at;
  expires_at = rec.expires_at;
}

-- `except Exception: self._metrics.lookup("provider", "error"); raise`
unfoldable pub count_failure : {W R : Type 0} → Exception → Exec W R
count_failure e s =
    if is_exception e
    then (raised e, count (Metrics.lookup "provider" "error") s)
    else (raised e, s)

-- `CacheRecord(...)`; the addition of the lifetime may overflow.
abbrev pub new_record :
    {A : Type 0} → A → GeoIpResult → Datetime → Option Datetime → Result (CacheRecord A)
new_record ip result fetched_at none = raised overflow_error
new_record ip result fetched_at (some expires_at) = ok (record {
  ip = ip;
  country_code = result.country_code;
  country_name = result.country_name;
  provider = result.provider;
  fetched_at = fetched_at;
  expires_at = expires_at;
})

module _ {A W : Type 0} (lib : IpLibrary A) (platform : Clock W) (self : IpLookupService A W) where
  -- `self._clock`, `clock or (lambda: datetime.now(UTC))`
  abbrev pub tick : Option (W → Datetime × W) → W → Datetime × W
  tick none = platform.now
  tick (some clock) = clock

  unfoldable pub read_clock : Exec W Datetime
  read_clock s = let (d, w) = tick self.clock s.world in (ok d, reach w s)

  -- The `try` block of a miss.
  unfoldable pub refresh : A → Exec W (CacheRecord A)
  refresh ip = do
    result ← self.provider.lookup ip
    fetched_at ← read_clock
    rec ← (λ s. (new_record ip result fetched_at (add_seconds fetched_at self.ttl_seconds), s))
    self.repository.upsert rec
    λ s. (ok rec, s)

  unfoldable pub miss : A → Exec W (LookupResult A)
  miss ip = do
    rec ← catch (refresh ip) count_failure
    λ s. (
      ok (new_result ip rec),
      write (completed "provider") (count (Metrics.lookup "provider" "success") s),
    )

  unfoldable pub hit : A → CacheRecord A → Exec W (LookupResult A)
  hit ip cached s = (
    ok (cached_result ip cached),
    write (completed "database") (count (Metrics.lookup "database" "success") s),
  )

  -- `cached.expires_at > now`; `none` is the TypeError of the comparison.
  abbrev pub by_age : A → CacheRecord A → Option Bool → Exec W (LookupResult A)
  by_age ip cached none s = (raised type_error, s)
  by_age ip cached (some true) s = hit ip cached s
  by_age ip cached (some false) s = miss ip s

  abbrev pub by_cache : A → Datetime → Option (CacheRecord A) → Exec W (LookupResult A)
  by_cache ip now none s = miss ip s
  by_cache ip now (some cached) s = by_age ip cached (gt cached.expires_at now) s

  unfoldable pub lookup : Text → Exec W (LookupResult A)
  lookup value = do
    ip ← (λ s. (validate_public_ip lib value, s))
    now ← read_clock
    cached ← self.repository.get ip
    by_cache ip now cached
