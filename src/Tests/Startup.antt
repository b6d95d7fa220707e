-- ===== src/Tests/Startup.antt =====
-- The theorems on the settings and the start at concrete inputs.
use arvan_ip_country_api.Prelude.{◌≡◌, ◌↔◌, refl, true, none, some, [], ◌∷◌, ◌++◌}
use arvan_ip_country_api.Text.{codes, strip}
use arvan_ip_country_api.Config.{
  Settings, make_settings, valid, info, json, ipinfo as ipinfo_mode, accepts_database_url,
  validate_provider_url,
}
use arvan_ip_country_api.Config.{
  lacks_token, field_bounds, validate_database_url, accepts_provider_url, require_ipinfo_token,
}
use arvan_ip_country_api.Config.Integers.{pos}
use arvan_ip_country_api.Config.Laws.{
  IsUsable, normalized, make_settings_iff, provider_url_without_host,
}

abbrev pub settings : Settings
settings = record {
  app_name = "IP Country API";
  app_env = "production";
  app_version = "0.1.0";
  app_host = "0.0.0.0";
  app_port = pos 8000;
  log_level = info;
  log_format = json;
  database_url = record { secret_value = codes "postgresql://db/ip" };
  database_pool_size = pos 5;
  database_max_overflow = pos 5;
  database_pool_timeout_seconds = pos 5000000000;
  database_connect_timeout_seconds = pos 3;
  geoip_provider = ipinfo_mode;
  geoip_provider_base_url = codes "https://api.ipinfo.io/";
  ipinfo_token = some (record { secret_value = codes "token" });
  geoip_provider_timeout_seconds = pos 3000000000;
  geoip_provider_max_retries = pos 2;
  geoip_cache_ttl_seconds = pos 86400;
  metrics_enabled = true;
  cors_allowed_origins = [];
  trusted_hosts = "localhost" ∷ [];
}

make_settings_iff_example :
    (make_settings settings ≡ valid (normalized settings))
    ↔ (IsUsable settings × (normalized settings ≡ normalized settings))
make_settings_iff_example = make_settings_iff settings (normalized settings)

provider_url_without_host_example :
    (validate_provider_url (codes "https://" ++ codes "/") ≡ some (codes "https:"))
    × (validate_provider_url (codes "https:") ≡ none)
provider_url_without_host_example = provider_url_without_host (codes "/") refl

pub settings_valid : make_settings settings ≡ valid (normalized settings)
unfolding make_settings field_bounds validate_database_url accepts_database_url
    validate_provider_url accepts_provider_url require_ipinfo_token lacks_token strip
settings_valid = refl
