-- ===== src/Providers.antt =====
-- providers/: the protocol, the fixtures for tests and the client of IPinfo Lite.
pub mod Fake
pub mod Ipinfo
use arvan_ip_country_api.Domain.Models.{GeoIpResult}
use arvan_ip_country_api.Effects.{Exec}

-- `GeoIPProvider`
pub record GeoIpProvider (A W : Type 0) : Type 0 where
  pub lookup : A → Exec W GeoIpResult
