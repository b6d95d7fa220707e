-- ===== src/Config.antt =====
-- config.py: the settings, their validators and the summary that is logged at startup. pydantic reads
-- the environment into values of the fields' types, which is not modelled: `Settings` with unchecked
-- values stands for what it has read. A float field is a whole number of nanoseconds.
pub mod Integers
pub mod Laws
use arvan_ip_country_api.Prelude.{
  ℕ, String, Bool, true, false, not, ◌&&◌, ◌||◌, Option, none, some, List, [], ◌∷◌, ◌++◌, name_eq,
  if◌then◌else◌,
}
use arvan_ip_country_api.Text.{Text, codes, starts_with, rstrip_slash, strip}
use arvan_ip_country_api.Effects.{LogValue, word, integer, boolean}
use Integers.{ℤ, in_range}

pub data LogLevel : Type 0 where
  debug info warning error critical : LogLevel

pub data LogFormat : Type 0 where
  json console : LogFormat

pub data ProviderName : Type 0 where
  fake ipinfo : ProviderName

pub record SecretStr : Type 0 where
  pub secret_value : Text

pub record Settings : Type 0 where
  pub app_name : String
  pub app_env : String
  pub app_version : String
  pub app_host : String
  pub app_port : ℤ
  pub log_level : LogLevel
  pub log_format : LogFormat
  pub database_url : SecretStr
  pub database_pool_size : ℤ
  pub database_max_overflow : ℤ
  pub database_pool_timeout_seconds : ℤ
  pub database_connect_timeout_seconds : ℤ
  pub geoip_provider : ProviderName
  pub geoip_provider_base_url : Text
  pub ipinfo_token : Option SecretStr
  pub geoip_provider_timeout_seconds : ℤ
  pub geoip_provider_max_retries : ℤ
  pub geoip_cache_ttl_seconds : ℤ
  pub metrics_enabled : Bool
  pub cors_allowed_origins : List String
  pub trusted_hosts : List String

pub data Problem : Type 0 where
  out_of_range : String → Problem
  database_url_scheme provider_url_scheme token_required fake_in_production : Problem

-- The settings, or pydantic's ValidationError with what it lists.
pub data Validated : Type 0 where
  valid : Settings → Validated
  invalid : List Problem → Validated

abbrev pub nanos : ℕ
nanos = 1000000000

abbrev pub complain : Bool → Problem → List Problem → List Problem
complain fits p more = if fits then more else p ∷ more

-- The bounds of the numeric fields.
unfoldable pub field_bounds : Settings → List Problem
field_bounds s = complain (in_range 1 65535 s.app_port) (out_of_range "app_port") (
    complain (in_range 1 100 s.database_pool_size) (out_of_range "database_pool_size") (
      complain (in_range 0 100 s.database_max_overflow) (out_of_range "database_max_overflow") (
        complain (in_range 1 60000000000 s.database_pool_timeout_seconds)
          (out_of_range "database_pool_timeout_seconds")
          (complain (in_range 1 60 s.database_connect_timeout_seconds)
            (out_of_range "database_connect_timeout_seconds")
            (complain (in_range 1 30000000000 s.geoip_provider_timeout_seconds)
              (out_of_range "geoip_provider_timeout_seconds")
              (complain (in_range 0 5 s.geoip_provider_max_retries)
                (out_of_range "geoip_provider_max_retries")
                (complain (in_range 60 31536000 s.geoip_cache_ttl_seconds)
                  (out_of_range "geoip_cache_ttl_seconds") [])))))))

-- `url.startswith(("postgresql+psycopg://", "postgresql://"))`
unfoldable pub accepts_database_url : Text → Bool
unfolding starts_with
accepts_database_url url =
    starts_with url (codes "postgresql+psycopg://") || starts_with url (codes "postgresql://")

unfoldable pub accepts_provider_url : Text → Bool
unfolding starts_with
accepts_provider_url url =
    starts_with url (codes "https://")
    || starts_with url (codes "http://localhost")
    || starts_with url (codes "http://127.0.0.1")

-- The field validators, each of which may refuse its value.
unfoldable pub validate_database_url : SecretStr → Option SecretStr
validate_database_url value = if accepts_database_url value.secret_value then some value else none

unfoldable pub validate_provider_url : Text → Option Text
validate_provider_url value = if accepts_provider_url value then some (rstrip_slash value) else none

-- `not token.get_secret_value().strip()`
abbrev is_blank : Text → Bool
is_blank [] = true
is_blank (c ∷ s) = false

unfoldable pub lacks_token : Option SecretStr → Bool
unfolding strip
lacks_token none = true
lacks_token (some token) = is_blank (strip token.secret_value)

abbrev pub is_ipinfo : ProviderName → Bool
is_ipinfo ipinfo = true
is_ipinfo fake = false

-- The model validator, which runs on settings whose fields have passed.
unfoldable pub require_ipinfo_token : Settings → Validated
require_ipinfo_token s =
    if is_ipinfo s.geoip_provider && lacks_token s.ipinfo_token
    then invalid (token_required ∷ [])
    else if name_eq s.app_env "production" && not (is_ipinfo s.geoip_provider)
    then invalid (fake_in_production ∷ [])
    else valid s

abbrev pub model_validate : Settings → List Problem → Option SecretStr → Option Text → Validated
model_validate s [] (some db) (some url) =
    require_ipinfo_token (record s { database_url = db; geoip_provider_base_url = url })
model_validate s bounds (some db) (some url) = invalid bounds
model_validate s bounds (some db) none = invalid (bounds ++ provider_url_scheme ∷ [])
model_validate s bounds none (some url) = invalid (bounds ++ database_url_scheme ∷ [])
model_validate s bounds none none =
    invalid (bounds ++ database_url_scheme ∷ provider_url_scheme ∷ [])

-- `Settings(...)`: every field is checked, and the model validator runs if all have passed.
unfoldable pub make_settings : Settings → Validated
make_settings s =
    model_validate s (field_bounds s) (validate_database_url s.database_url)
      (validate_provider_url s.geoip_provider_base_url)

abbrev level_name : LogLevel → String
level_name debug = "DEBUG"
level_name info = "INFO"
level_name warning = "WARNING"
level_name error = "ERROR"
level_name critical = "CRITICAL"

abbrev format_name : LogFormat → String
format_name json = "json"
format_name console = "console"

abbrev provider_name : ProviderName → String
provider_name fake = "fake"
provider_name ipinfo = "ipinfo"

-- What is logged of the settings.
unfoldable pub public_summary : Settings → List (String × LogValue)
public_summary s =
    ("app_name", word s.app_name)
    ∷ ("app_env", word s.app_env)
    ∷ ("app_version", word s.app_version)
    ∷ ("log_level", word (level_name s.log_level))
    ∷ ("log_format", word (format_name s.log_format))
    ∷ ("geoip_provider", word (provider_name s.geoip_provider))
    ∷ ("provider_timeout_seconds", integer s.geoip_provider_timeout_seconds)
    ∷ ("provider_max_retries", integer s.geoip_provider_max_retries)
    ∷ ("cache_ttl_seconds", integer s.geoip_cache_ttl_seconds)
    ∷ ("metrics_enabled", boolean s.metrics_enabled)
    ∷ []
