-- ===== src/Service/Concurrency/Path.antt =====
-- A lookup that nothing interrupts takes the steps of one task.
use arvan_ip_country_api.Prelude.{◌≡◌, refl, ap, true, Option, some, [], ◌∷◌}
use arvan_ip_country_api.Text.{Text}
use arvan_ip_country_api.Domain.Datetime.{Datetime, gt, add_seconds}
use arvan_ip_country_api.Domain.IpValidation.{IpLibrary, validate_public_ip}
use arvan_ip_country_api.Domain.Models.{CacheRecord, GeoIpResult, LookupResult}
use arvan_ip_country_api.Effects.{ok, State, Clock}
use arvan_ip_country_api.Repository.Interface.{IsCache}
use arvan_ip_country_api.Service.{IpLookupService, lookup, cached_result, new_result}
use arvan_ip_country_api.Service.Runs.{start_time}
use arvan_ip_country_api.Service.Caching.{
  IsStale, IsQuiet, read_state, asked, made, lookup_cached, lookup_refreshed,
}
use arvan_ip_country_api.Service.Concurrency.{
  Phase, waiting, seen, asking, holding, stored, answered, read, hit, miss, answer, commit, finish,
  System, step, Reach, here, next,
}

module _ {A W : Type 0} (lib : IpLibrary A) (platform : Clock W) (self : IpLookupService A W)
    (cache : IsCache self.repository) (q : IsQuiet lib platform self cache) (value : Text) (ip : A)
    (valid : validate_public_ip lib value ≡ ok ip) where
  -- The provider may answer so.
  abbrev pub MayAnswer : GeoIpResult → Type 0
  MayAnswer r = (t : State W) × ((self.provider.lookup ip t).0 ≡ ok r)

  abbrev pub alone : Option (CacheRecord A) → Phase A → System ip self.ttl_seconds MayAnswer
  alone cell p = record { cell = cell; tasks = p ∷ [] }

  -- What lets a lookup succeed: a record that has not expired, or an answer that can be stored.
  pub data Succeeds (m : A → Option (CacheRecord A)) (s : State W) : Type 0 where
    fresh :
        (c : CacheRecord A)
        → m ip ≡ some c
        → gt c.expires_at (start_time lib platform self s) ≡ some true
        → Succeeds m s
    refreshed :
        (r : GeoIpResult) (expires : Datetime)
        → IsStale (start_time lib platform self s) (m ip)
        → (self.provider.lookup ip (read_state lib platform self cache q value ip valid s)).0 ≡ ok r
        → add_seconds
            (start_time lib platform self (asked lib platform self cache q value ip valid s))
            self.ttl_seconds
          ≡ some expires
        → cache.Storable (made lib platform self cache q value ip valid s r expires)
        → Succeeds m s

  -- A lookup on its own that finds a record which has not expired, or whose refresh goes through, runs
  -- from `waiting` to `answered` in the steps of a task, with the result that it returns, and the steps
  -- leave the cell for the address as the lookup leaves the store.
  pub lookup-Reach :
      (m : A → Option (CacheRecord A)) (s : State W)
      → cache.Holds s.world m
      → cache.Accepts ip
      → Succeeds m s
      → (m' : A → Option (CacheRecord A)) × (result : LookupResult A) × ((lookup lib platform self
            value s).0
          ≡ ok result)
        × cache.Holds (lookup lib platform self value s).1.world m'
        × Reach ip self.ttl_seconds MayAnswer
            (alone (m ip) waiting)
            (alone (m' ip) (answered result))
  lookup-Reach m s holds accepts (fresh c found young) =
      let (result, held, _) =
        lookup_cached lib platform self cache q value ip valid m c s holds accepts found young in
      (
        m,
        cached_result ip c,
        result,
        held,
        next (next here (step [] [] waiting (seen (m ip)) refl (read refl refl refl) refl)) (
            step [] [] (seen (m ip)) (answered (cached_result ip c)) refl
              (hit (start_time lib platform self s) c (ap seen found) young refl refl) refl),
      )
  lookup-Reach m s holds accepts (refreshed r expires stale answers fits storable) =
      let rec = made lib platform self cache q value ip valid s r expires in
      let now = start_time lib platform self (asked lib platform self cache q value ip valid s) in
      let (result, held, _) =
        lookup_refreshed lib platform self cache q value ip valid m s r expires holds accepts stale
          answers fits storable in
      (
        cache.update m rec,
        new_result ip rec,
        result,
        held,
        next
            (next
              (next
                (next (next here (step [] [] waiting (seen (m ip)) refl (read refl refl refl) refl))
                  (step [] [] (seen (m ip)) asking refl
                    (miss (start_time lib platform self s) (m ip) refl stale refl refl) refl))
                (step [] [] asking (holding rec) refl
                  (answer r now expires refl
                    (read_state lib platform self cache q value ip valid s, answers) fits refl refl)
                  refl))
              (step [] [] (holding rec) (stored rec) refl
                (commit rec refl (cache.update_self m rec) refl) refl))
            (step [] [] (stored rec) (answered (new_result ip rec)) refl (finish rec refl refl refl)
              refl),
      )
