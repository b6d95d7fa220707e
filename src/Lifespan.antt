-- ===== src/Lifespan.antt =====
-- lifespan.py: which provider the service starts with.
pub mod Startup
pub mod Running
use arvan_ip_country_api.Prelude.{Option, none, some}
use arvan_ip_country_api.Text.{Text}
use arvan_ip_country_api.Config.{Settings, SecretStr, ProviderName, fake, ipinfo}
use arvan_ip_country_api.Config.Integers.{ℤ}

-- The provider with the arguments that it and its HTTP client are built from, or the RuntimeError.
pub data Choice : Type 0 where
  fake_provider : Choice
  ipinfo_provider : Text → ℤ → Text → ℤ → Choice
  runtime_error : Choice

abbrev with_token : Settings → Option SecretStr → Choice
with_token settings none = runtime_error
with_token settings (some token) =
    ipinfo_provider settings.geoip_provider_base_url settings.geoip_provider_timeout_seconds
      token.secret_value settings.geoip_provider_max_retries

abbrev by_name : Settings → ProviderName → Choice
by_name settings fake = fake_provider
by_name settings ipinfo = with_token settings settings.ipinfo_token

unfoldable pub choose_provider : Settings → Choice
choose_provider settings = by_name settings settings.geoip_provider
