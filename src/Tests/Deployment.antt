-- ===== src/Tests/Deployment.antt =====
-- The theorems on the dashboards' files, the migration, the traffic and the lifespan at concrete inputs.
use arvan_ip_country_api.Prelude.{
  ◌≡◌, ◌↔◌, refl, true, false, Bool, not, none, arith, some, [], ◌∷◌,
}
use arvan_ip_country_api.Text.{Text, codes, text_eq, strip, is_space}
use arvan_ip_country_api.Effects.{Exec, ok, raised, cancelled}
use arvan_ip_country_api.Dashboards.{Dashboard}
use arvan_ip_country_api.Dashboards.Pack.{Files, expected, main}
use arvan_ip_country_api.Dashboards.Pack.Committed.{AreCommitted, main_lem}
use arvan_ip_country_api.Domain.Datetime.{Datetime}
use arvan_ip_country_api.Domain.Models.{GeoIpResult}
use arvan_ip_country_api.Database.Migrations.{upgrade, takes}
use arvan_ip_country_api.Database.Migrations.Columns.{IsUnicode, country-takes}
use arvan_ip_country_api.Repository.{upsert_statement}
use arvan_ip_country_api.Providers.Ipinfo.{lookup}
use arvan_ip_country_api.Providers.Ipinfo
use arvan_ip_country_api.Providers.Ipinfo.Retries.{retry_loop}
use arvan_ip_country_api.Providers.Ipinfo.Payload.{
  parse, country_code_is_iso_like, country_name_is_usable, is_alpha,
}
use arvan_ip_country_api.Json.{get_field}
use arvan_ip_country_api.Service.Concurrency.{record_of}
use arvan_ip_country_api.Traffic.{percentile}
use arvan_ip_country_api.Lifespan.Running.{Resources, lifespan}
use arvan_ip_country_api.Lifespan.Running.Release.{IsReleasing, Ended, body_run, lifespan-Ended}
use arvan_ip_country_api.Config.Laws.{normalized}
use arvan_ip_country_api.Tests.Platform.{google, addresses, clock, at, fresh}
use arvan_ip_country_api.Tests.Servers.{ascii, retrying, ipinfo, client_law, retrying_law}
use arvan_ip_country_api.Tests.Witnesses.{expiry}
use arvan_ip_country_api.Tests.Startup.{settings, settings_valid}

abbrev dumps : Dashboard → Text
dumps d = codes d.uid

abbrev no_files : Files
no_files name = none

main_lem_example :
    (((main dumps true no_files).0 ≡ 0) ↔ AreCommitted dumps no_files expected)
    × ((main dumps true no_files).1 ≡ no_files)
    × ((main dumps true (main dumps false no_files).1).0 ≡ 0)
main_lem_example = main_lem dumps no_files

median : percentile (30 ∷ 10 ∷ 20 ∷ []) 50 ≡ some 20
unfolding percentile
median = refl

abbrev united_states : GeoIpResult
united_states = record {
  country_code = codes "US";
  country_name = codes "United States";
  provider = codes "ipinfo";
}

abbrev moment : Datetime
moment = at (fresh 0).world

answers : (lookup addresses clock ascii retrying ipinfo google (fresh 1)).0 ≡ ok united_states
unfolding Ipinfo.lookup Ipinfo.request Ipinfo.check_status Ipinfo.as_retryable Ipinfo.is_retryable
    Ipinfo.translate retry_loop parse country_code_is_iso_like country_name_is_usable strip is_space
    get_field is_alpha
answers = refl

ascii-IsUnicode : IsUnicode ascii
ascii-IsUnicode = record { alpha_storable = λ c h. ground arith }

abbrev inet_addresses : Text → Bool
inet_addresses s = not (text_eq s (codes "localhost"))

country-takes_example :
    takes inet_addresses upgrade
      (upsert_statement addresses (record_of google united_states moment expiry) moment).values
    ≡ true
country-takes_example =
    country-takes addresses clock ascii retrying ipinfo client_law retrying_law ascii-IsUnicode
      inet_addresses google (fresh 1) united_states moment moment (some expiry)
      (record_of google united_states moment expiry) refl refl answers refl

-- A world of two handles, open or not.
record Handles : Type 0 where
  client : Bool
  engine : Bool

abbrev resources : Resources Handles
resources = record {
  aclose = λ s. (ok tt, record s { world = record s.world { client = false } });
  dispose = λ s. (ok tt, record s { world = record s.world { engine = false } });
}

abbrev releasing : IsReleasing resources
releasing = record {
  open_client = λ w. w.client;
  open_engine = λ w. w.engine;
  aclose_ok = λ s. refl;
  aclose_log = λ s. refl;
  aclose_closes = λ s. refl;
  dispose_ok = λ s. refl;
  dispose_log = λ s. refl;
  dispose_closes = λ s. refl;
  dispose_keeps = λ s. refl;
}

-- The serving is cancelled.
abbrev serving : Exec Handles (Unit {0})
serving s = (raised cancelled, s)

abbrev both_open : Handles
both_open = record { client = true; engine = true }

lifespan-Ended_example :
    Ended resources releasing
      (normalized settings)
      (body_run resources releasing (normalized settings) serving both_open)
      (lifespan resources (normalized settings) serving both_open)
lifespan-Ended_example =
    lifespan-Ended resources releasing settings (normalized settings) serving both_open
      settings_valid
