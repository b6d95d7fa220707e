-- ===== src/Providers/Fake.antt =====
-- providers/fake.py
use arvan_ip_country_api.Prelude.{ℕ, String, Option, none, some, List, [], ◌∷◌, if◌then◌else◌}
use arvan_ip_country_api.Text.{Text, codes, text_eq}
use arvan_ip_country_api.Domain.Errors.{provider_invalid_response}
use arvan_ip_country_api.Domain.IpValidation.{IpLibrary}
use arvan_ip_country_api.Domain.Models.{GeoIpResult}
use arvan_ip_country_api.Observability.Metrics
use arvan_ip_country_api.Effects.{
  Exec, app, Clock, read_counter, count_elapsed, count, record_step, throw, pure, ◌>>=◌, ◌>>◌,
}
use arvan_ip_country_api.Providers.{GeoIpProvider}

abbrev pub name : String
name = "fake"

-- `FIXTURES`
abbrev pub fixtures : List (Text × Text × Text)
fixtures =
    (codes "8.8.8.8", codes "US", codes "United States")
    ∷ (codes "1.1.1.1", codes "AU", codes "Australia")
    ∷ (codes "2001:4860:4860::8888", codes "US", codes "United States")
    ∷ []

-- `FIXTURES[key]`; `none` is the KeyError.
unfoldable pub fixture : Text → List (Text × Text × Text) → Option (Text × Text)
fixture key [] = none
fixture key ((k, code, country) ∷ more) =
    if text_eq k key then some (code, country) else fixture key more

module _ {A W : Type 0} (lib : IpLibrary A) (clock : Clock W) where
  abbrev pub answer : ℕ → Option (Text × Text) → Exec W GeoIpResult
  answer started none = do
    record_step (count (Metrics.provider_error name "fixture_not_found"))
    record_step (count_elapsed clock (Metrics.provider_request name "error") started)
    throw (app provider_invalid_response)
  answer started (some (code, country)) = do
    record_step (count_elapsed clock (Metrics.provider_request name "success") started)
    pure (record { country_code = code; country_name = country; provider = codes name })

  unfoldable pub lookup : A → Exec W GeoIpResult
  lookup ip = do started ← read_counter clock; answer started (fixture (lib.str ip) fixtures)

  -- `FakeGeoIPProvider`
  unfoldable pub fake_provider : GeoIpProvider A W
  fake_provider = record { lookup = lookup }
