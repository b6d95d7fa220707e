-- ===== src/Api/Lookups.antt =====
-- api/lookups.py, with the service that `get_lookup_service` finds in the application's state.
use arvan_ip_country_api.Domain.IpValidation.{IpLibrary}
use arvan_ip_country_api.Domain.Models.{LookupRequest, LookupResult, LookupResponse}
use arvan_ip_country_api.Effects.{Exec, Clock, pure, ◌>>=◌}
use arvan_ip_country_api.Service.{IpLookupService, lookup}

unfoldable pub response_of : {A : Type 0} → IpLibrary A → LookupResult A → LookupResponse
response_of lib result = record {
  ip = lib.str result.ip;
  country_code = result.country_code;
  country_name = result.country_name;
  source = result.source;
  fetched_at = result.fetched_at;
  expires_at = result.expires_at;
}

module _ {A W : Type 0} (lib : IpLibrary A) (platform : Clock W)
    (service : IpLookupService A W) where
  unfoldable pub create_lookup : LookupRequest → Exec W LookupResponse
  create_lookup payload = do
    result ← lookup lib platform service payload.ip
    pure (response_of lib result)
