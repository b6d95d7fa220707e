-- ===== src/Tests/Witnesses.antt =====
-- The theorems at concrete inputs: a service over a table in memory with the fixtures for a provider,
-- and IPinfo behind a server that fails once.
use arvan_ip_country_api.Prelude.{
  ◌≡◌, ◌⊎◌, ◌+◌, ◌*◌, ◌++◌, arith, refl, true, Option, none, some, [], ◌∷◌,
}
use arvan_ip_country_api.Text.{Text, codes, strip}
use arvan_ip_country_api.Domain.Datetime.{Datetime, utc_zone, gt, add_seconds, utc}
use arvan_ip_country_api.Domain.IpValidation.{validate_public_ip, is_refused}
use arvan_ip_country_api.Domain.Models.{CacheRecord, GeoIpResult}
use arvan_ip_country_api.Domain.Errors.{AppError, status_code}
use arvan_ip_country_api.Domain.IpValidation.Laws.{IsPublic}
use arvan_ip_country_api.Service.Statuses.{Documented, lookup_only-IsPublic}
use arvan_ip_country_api.Service.Assembly.{IsForeign, ipinfo_service, ipinfo_lookup-Documented}
use arvan_ip_country_api.Effects.{State, ok, raised, app, select, insert}
use arvan_ip_country_api.Repository.{postgres_repository, get, upsert, upsert_statement, read_row}
use arvan_ip_country_api.Repository.Cache.{postgres_cache}
use arvan_ip_country_api.Repository.Interface.{IsCache}
use arvan_ip_country_api.Providers.Fake.{fake_provider, fixture}
use arvan_ip_country_api.Providers.Fake
use arvan_ip_country_api.Service.{
  IpLookupService, lookup, read_clock, count_failure, new_result, cached_result, miss, refresh,
}
use arvan_ip_country_api.Service.Runs.{start_time}
use arvan_ip_country_api.Service.Caching.{
  IsQuiet, made, read_state, asked, lookup_cached, lookup_refreshed, lookup_twice,
}
use arvan_ip_country_api.Tests.Platform.{
  Address, google, quad_one, home, addresses, addresses-IsIpLibrary, World, clock, session,
  postgres, clock_law, base, at-IsUtc, fresh,
}
use arvan_ip_country_api.Tests.Servers.{ascii, retrying, ipinfo, client_law, retrying_law}

abbrev pub service : IpLookupService Address World
service = record {
  repository = postgres_repository addresses session clock;
  provider = fake_provider addresses clock;
  ttl_seconds = 86400;
  clock = none;
}

abbrev pub cache : IsCache (postgres_repository addresses session clock)
cache = postgres_cache addresses addresses-IsIpLibrary postgres clock_law

pub quiet : IsQuiet addresses clock service cache
unfolding fake_provider postgres_cache postgres_repository fixture Fake.lookup
quiet = record { clock_keeps = λ w m h. h; provider_keeps = keeps }
  where
    keeps :
        (ip : Address) (s : State World) (m : Address → Option (CacheRecord Address))
        → cache.Holds s.world m
        → cache.Holds ((fake_provider addresses clock).lookup ip s).1.world m
    keeps google s m h = h
    keeps quad_one s m h = h
    keeps home s m h = h

pub valid_google : validate_public_ip addresses (codes " 8.8.8.8 ") ≡ ok google
unfolding validate_public_ip strip is_refused
valid_google = refl

-- The row that a first lookup leaves.
abbrev pub answer : GeoIpResult
answer = record {
  country_code = codes "US";
  country_name = codes "United States";
  provider = codes "fake";
}

abbrev pub no_rows : Address → Option (CacheRecord Address)
no_rows a = none

pub empty-Holds : cache.Holds (fresh 0).world no_rows
unfolding postgres_cache
empty-Holds = (λ a. tt, refl)

pub accepts : (a : Address) → cache.Accepts a
unfolding postgres_cache
accepts a = refl

abbrev pub blank_google : Text
blank_google = codes " 8.8.8.8 "

valid_plain : validate_public_ip addresses (codes "8.8.8.8") ≡ ok google
unfolding validate_public_ip strip is_refused
valid_plain = refl

-- One day behind the second reading of the time.
abbrev pub expiry : Datetime
expiry = record { local = base + (1 + 86400) * 1000000; tzinfo = utc_zone }

abbrev pub stored : CacheRecord Address
stored =
    made addresses clock service cache quiet blank_google google valid_google (fresh 0) answer
      expiry

pub fake_answers :
    ((fake_provider addresses clock).lookup google
      (read_state addresses clock service cache quiet blank_google google valid_google (fresh 0))).0
    ≡ ok answer
unfolding fake_provider Fake.lookup fixture
fake_answers = refl

pub expires :
    add_seconds
      (start_time addresses clock service
        (asked addresses clock service cache quiet blank_google google valid_google (fresh 0)))
      86400
    ≡ some expiry
unfolding postgres_repository get read_row add_seconds fake_provider Fake.lookup fixture
expires = refl

pub storable : cache.Storable stored
unfolding postgres_cache postgres_repository get read_row fake_provider Fake.lookup fixture
storable = record {
  code_storable = refl;
  name_storable = refl;
  provider_storable = refl;
  country_code = omega arith;
  country_name = omega arith;
  provider = omega arith;
  fetched_utc =
      at-IsUtc
        (asked addresses clock service cache quiet blank_google google valid_google
          (fresh 0)).world;
  expires_utc = record { zone = refl; after_start = omega arith; before_end = omega arith };
}

unexpired :
    gt expiry
      (start_time addresses clock service (lookup addresses clock service blank_google (fresh 0)).1)
    ≡ some true
unfolding lookup validate_public_ip strip is_refused postgres_repository get read_row upsert
    upsert_statement fake_provider Fake.lookup fixture gt utc read_clock miss refresh count_failure
    add_seconds
unexpired = refl

-- A first lookup leaves its record in the table.
lookup_refreshed-Holds :
    cache.Holds
      (lookup addresses clock service blank_google (fresh 0)).1.world
      (cache.update no_rows stored)
lookup_refreshed-Holds =
    (lookup_refreshed addresses clock service cache quiet blank_google google valid_google no_rows
      (fresh 0) answer expiry empty-Holds (accepts google) tt fake_answers expires storable).1

lookup_refreshed_example :
    ((lookup addresses clock service blank_google (fresh 0)).0 ≡ ok (new_result google stored))
    × cache.Holds
        (lookup addresses clock service blank_google (fresh 0)).1.world
        (cache.update no_rows stored)
    × ((lookup addresses clock service blank_google (fresh 0)).1.calls
        ≡ (asked addresses clock service cache quiet blank_google google valid_google
            (fresh 0)).calls
          ++ insert (cache.key google) ∷ [])
lookup_refreshed_example =
    lookup_refreshed addresses clock service cache quiet blank_google google valid_google no_rows
      (fresh 0) answer expiry empty-Holds (accepts google) tt fake_answers expires storable

lookup_twice_example :
    ((lookup addresses clock service
        (codes "8.8.8.8")
        (lookup addresses clock service blank_google (fresh 0)).1).0
      ≡ ok (cached_result google stored))
    × ((lookup addresses clock service
          (codes "8.8.8.8")
          (lookup addresses clock service blank_google (fresh 0)).1).1.calls
        ≡ (lookup addresses clock service blank_google (fresh 0)).1.calls
          ++ select (cache.key google) ∷ [])
lookup_twice_example =
    lookup_twice addresses clock service cache quiet blank_google (codes "8.8.8.8") google
      valid_google valid_plain no_rows (fresh 0) answer expiry empty-Holds (accepts google) tt
      fake_answers expires storable unexpired

-- The state behind a first lookup.
abbrev warm : State World
warm = (lookup addresses clock service blank_google (fresh 0)).1

abbrev one_row : Address → Option (CacheRecord Address)
one_row = cache.update no_rows stored

lookup_cached_example :
    ((lookup addresses clock service (codes "8.8.8.8") warm).0 ≡ ok (cached_result google stored))
    × cache.Holds (lookup addresses clock service (codes "8.8.8.8") warm).1.world one_row
    × ((lookup addresses clock service (codes "8.8.8.8") warm).1.calls
        ≡ warm.calls ++ select (cache.key google) ∷ [])
lookup_cached_example =
    lookup_cached addresses clock service cache quiet (codes "8.8.8.8") google valid_plain one_row
      stored warm lookup_refreshed-Holds (accepts google) (cache.update_self no_rows stored)
      unexpired

lookup_only-IsPublic_example :
    ((ip : Address) × (validate_public_ip addresses (codes "127.0.0.1") ≡ ok ip)
      × IsPublic addresses ip)
    ⊎ ((e : AppError) × (lookup addresses clock service (codes "127.0.0.1") (fresh 0)
          ≡ (raised (app e), fresh 0))
        × (status_code e ≡ 422))
lookup_only-IsPublic_example =
    lookup_only-IsPublic addresses clock service (codes "127.0.0.1") (fresh 0)

abbrev pub ipinfo_cache : IpLookupService Address World
ipinfo_cache = ipinfo_service addresses session clock ascii retrying ipinfo 86400

session-IsForeign : IsForeign session
session-IsForeign = record { scalar = λ key w h. cc; execute = λ st w h. cc }

ipinfo_lookup-Documented_example :
    Documented (lookup addresses clock ipinfo_cache (codes "1.1.1.1") (fresh 3)).0
ipinfo_lookup-Documented_example =
    ipinfo_lookup-Documented addresses session clock session-IsForeign ascii retrying ipinfo
      client_law retrying_law 86400 (codes "1.1.1.1") (fresh 3)
