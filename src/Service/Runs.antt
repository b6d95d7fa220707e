-- ===== src/Service/Runs.antt =====
-- The runs of the service, one equation for each way that a lookup takes.
use arvan_ip_country_api.Prelude.{◌≡◌, Option, some}
use arvan_ip_country_api.Text.{Text}
use arvan_ip_country_api.Domain.Datetime.{Datetime, add_seconds}
use arvan_ip_country_api.Domain.IpValidation.{IpLibrary, validate_public_ip}
use arvan_ip_country_api.Domain.Models.{CacheRecord, GeoIpResult}
use arvan_ip_country_api.Effects.{Exception, ok, raised, State, Clock, reach}
use arvan_ip_country_api.Service.{IpLookupService, tick, read_clock, refresh, by_cache, lookup}

module _ {A W : Type 0} (lib : IpLibrary A) (platform : Clock W) (self : IpLookupService A W) where
  -- The time that a lookup begins at, and the state that its cache is read in.
  abbrev pub start_time : State W → Datetime
  start_time s = (tick lib platform self self.clock s.world).0

  abbrev pub started : State W → State W
  started s = reach (tick lib platform self self.clock s.world).1 s

  pub lookup_refused :
      (value : Text) (e : Exception) (s : State W)
      → validate_public_ip lib value ≡ raised e
      → lookup lib platform self value s ≡ (raised e, s)
  unfolding lookup
  lookup_refused value e s h = rw (h, lookup)

  pub lookup_read :
      (value : Text) (ip : A) (s t : State W) (found : Option (CacheRecord A))
      → validate_public_ip lib value ≡ ok ip
      → self.repository.get ip (started s) ≡ (ok found, t)
      → lookup lib platform self value s ≡ by_cache lib platform self ip (start_time s) found t
  unfolding lookup read_clock
  lookup_read value ip s t found h g = rw (h, lookup, g)

  pub lookup_unread :
      (value : Text) (ip : A) (e : Exception) (s t : State W)
      → validate_public_ip lib value ≡ ok ip
      → self.repository.get ip (started s) ≡ (raised e, t)
      → lookup lib platform self value s ≡ (raised e, t)
  unfolding lookup read_clock
  lookup_unread value ip e s t h g = rw (h, lookup, g)

  -- A refresh whose steps all succeed.
  pub refresh_done :
      (ip : A) (r : GeoIpResult) (expires : Datetime) (t u v : State W)
      → self.provider.lookup ip t ≡ (ok r, u)
      → add_seconds (start_time u) self.ttl_seconds ≡ some expires
      → self.repository.upsert
          (record {
            ip = ip;
            country_code = r.country_code;
            country_name = r.country_name;
            provider = r.provider;
            fetched_at = start_time u;
            expires_at = expires;
          })
          (started u)
        ≡ (ok tt, v)
      → refresh lib platform self ip t ≡ (
        ok (record {
          ip = ip;
          country_code = r.country_code;
          country_name = r.country_name;
          provider = r.provider;
          fetched_at = start_time u;
          expires_at = expires;
        }),
        v,
      )
  unfolding refresh read_clock
  refresh_done ip r expires t u v p a w = rw (p, refresh, a, w)
