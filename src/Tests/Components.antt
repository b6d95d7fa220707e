-- ===== src/Tests/Components.antt =====
-- The theorems on single components at concrete inputs.
use arvan_ip_country_api.Prelude.{
  ◌≡◌, ◌⊎◌, ◌↔◌, refl, true, false, Option, none, some, ◌++◌, ◌+◌, ◌-◌, arith,
}
use arvan_ip_country_api.Text.{Text, codes, strip}
use arvan_ip_country_api.Domain.Datetime.{Datetime, utc_zone, utc, east}
use arvan_ip_country_api.Domain.Errors.{non_public_ip}
use arvan_ip_country_api.Domain.IpValidation.{validate_public_ip, is_refused}
use arvan_ip_country_api.Domain.IpValidation.Laws.{IsPublic, validate_iff}
use arvan_ip_country_api.Domain.Models.{CacheRecord}
use arvan_ip_country_api.Effects.{State, ok, raised, app}
use arvan_ip_country_api.Config.{accepts_database_url}
use arvan_ip_country_api.Database.Engine.{
  engine_url, main_option_url, interpolate, with_driver, engine_url_lem,
  interpolate-main_option_url,
}
use arvan_ip_country_api.Database.{Row}
use arvan_ip_country_api.Providers.Ipinfo.{path_of}
use arvan_ip_country_api.Providers.Ipinfo
use arvan_ip_country_api.Providers.Ipinfo.Laws.{LookupRun, lookup_run}
use arvan_ip_country_api.Json.{get_field}
use arvan_ip_country_api.Providers.Ipinfo.Payload.{
  parse, country_code_is_iso_like, is_alpha, country_name_is_usable, IpinfoLiteResponse, IsClean,
  parse-IsClean,
}
use arvan_ip_country_api.Repository.{get, upsert}
use arvan_ip_country_api.Repository.Runs.{write_time}
use arvan_ip_country_api.Repository.Refinement.{IsStorable, Represents, update, get-Represents}
use arvan_ip_country_api.Repository.Writes.{upsert-Represents}
use arvan_ip_country_api.Tests.Platform.{
  Address, google, addresses, addresses-IsIpLibrary, World, clock, session, postgres, clock_law,
  base, fresh,
}
use arvan_ip_country_api.Tests.Servers.{ascii, retrying, ipinfo, client_law, retrying_law, payload}

lookup_run_example :
    LookupRun ascii
      (path_of addresses google)
      2
      (fresh 1)
      (Ipinfo.lookup addresses clock ascii retrying ipinfo google (fresh 1))
lookup_run_example =
    lookup_run addresses clock ascii retrying ipinfo client_law retrying_law google (fresh 1)

abbrev expiry : Datetime
expiry = record { local = base + 60000000; tzinfo = utc_zone }

abbrev fetched : Datetime
fetched = record { local = base; tzinfo = utc_zone }

abbrev american : CacheRecord Address
american = record {
  ip = google;
  country_code = codes "US";
  country_name = codes "United States";
  provider = codes "ipinfo";
  fetched_at = fetched;
  expires_at = expiry;
}

american-IsStorable : IsStorable addresses american
american-IsStorable = record {
  code_storable = refl;
  name_storable = refl;
  provider_storable = refl;
  country_code = omega arith;
  country_name = omega arith;
  provider = omega arith;
  fetched_utc = record { zone = refl; after_start = omega arith; before_end = omega arith };
  expires_utc = record { zone = refl; after_start = omega arith; before_end = omega arith };
}

abbrev no_rows : Address → Option (CacheRecord Address)
no_rows a = none

abbrev stored : State World
stored = (upsert addresses session clock american (fresh 0)).1

stored-Represents :
    Represents addresses addresses-IsIpLibrary postgres clock_law stored.world
      (update addresses no_rows american)
stored-Represents =
    (upsert-Represents addresses addresses-IsIpLibrary postgres clock_law no_rows american (fresh 0)
      (λ a. tt) american-IsStorable refl refl).1

get-Represents_example :
    ((get addresses session clock google stored).0 ≡ ok (some american))
    × Represents addresses addresses-IsIpLibrary postgres clock_law
        (get addresses session clock google stored).1.world
        (update addresses no_rows american)
    × (postgres.up (get addresses session clock google stored).1.world ≡ true)
get-Represents_example =
    get-Represents addresses addresses-IsIpLibrary postgres clock_law
      (update addresses no_rows american) google stored stored-Represents refl refl

abbrev first_row : Row
first_row = record {
  ip_address = codes "8.8.8.8";
  country_code = codes "US";
  country_name = codes "United States";
  provider = codes "ipinfo";
  fetched_at = fetched;
  expires_at = expiry;
  created_at = write_time addresses session clock (fresh 0);
  updated_at = write_time addresses session clock (fresh 0);
}

validate_iff_example :
    (validate_public_ip addresses (codes " 8.8.8.8") ≡ ok google)
    ↔ ((addresses.ip_address (strip (codes " 8.8.8.8")) ≡ some google) × IsPublic addresses google)
validate_iff_example = validate_iff addresses (codes " 8.8.8.8") google

home_refused : validate_public_ip addresses (codes "127.0.0.1") ≡ raised (app non_public_ip)
unfolding validate_public_ip strip is_refused
home_refused = refl

padded_valid : validate_public_ip addresses (codes " 8.8.8.8") ≡ ok google
unfolding validate_public_ip strip is_refused
padded_valid = refl

accepted_url : accepts_database_url (codes "postgresql://db/ip") ≡ true
unfolding accepts_database_url
accepted_url = refl

interpolate-main_option_url_example :
    interpolate false (main_option_url (codes "postgresql://u:p%40@db/ip"))
    ≡ some (engine_url (codes "postgresql://u:p%40@db/ip"))
interpolate-main_option_url_example =
    interpolate-main_option_url (codes "postgresql://u:p%40@db/ip")

abbrev united_states : IpinfoLiteResponse
united_states = record { country_code = codes "US"; country = codes "United States" }

parsed : parse ascii payload ≡ some united_states
unfolding parse get_field country_code_is_iso_like is_alpha country_name_is_usable strip
parsed = refl

parse-IsClean_example : IsClean ascii united_states
parse-IsClean_example = parse-IsClean ascii payload united_states parsed

abbrev tehran : Datetime
tehran = record { local = base; tzinfo = some (east 12600000000) }

abbrev tehran_utc : Datetime
tehran_utc = record { local = base - 12600000000; tzinfo = utc_zone }

tehran_moved : utc tehran ≡ some tehran_utc
unfolding utc
tehran_moved = refl

engine_url_lem_example :
    (rest : Text) × (engine_url (codes "postgresql://db/ip") ≡ with_driver ++ rest)
    × ((codes "postgresql://db/ip" ≡ codes "postgresql://" ++ rest)
        ⊎ (codes "postgresql://db/ip" ≡ with_driver ++ rest))
engine_url_lem_example = engine_url_lem (codes "postgresql://db/ip") accepted_url
