-- ===== src/Service/Caching.antt =====
-- Caching, over any repository that is a map: a record that has not expired answers without the
-- provider, and what the provider answers is stored and answers the next lookup.
use arvan_ip_country_api.Prelude.{◌≡◌, refl, ap, true, false, Option, none, some, [], ◌∷◌, ◌++◌}
use arvan_ip_country_api.Text.{Text}
use arvan_ip_country_api.Domain.Datetime.{Datetime, gt, add_seconds}
use arvan_ip_country_api.Domain.IpValidation.{IpLibrary, validate_public_ip}
use arvan_ip_country_api.Domain.Models.{CacheRecord, GeoIpResult}
use arvan_ip_country_api.Effects.{Result, ok, State, Clock, select, insert}
use arvan_ip_country_api.Repository.Interface.{IsCache}
use arvan_ip_country_api.Service.{
  IpLookupService, tick, lookup, cached_result, new_result, miss, hit, by_cache,
}
use arvan_ip_country_api.Service.Runs.{start_time, started, lookup_read, refresh_done}

-- No record, or one that has expired.
abbrev pub IsStale : {A : Type 0} → Datetime → Option (CacheRecord A) → Type 0
IsStale now none = Unit
IsStale now (some c) = gt c.expires_at now ≡ some false

module _ {A W : Type 0} (lib : IpLibrary A) (platform : Clock W) (self : IpLookupService A W)
    (cache : IsCache self.repository) where
  -- Reading the clock and asking the provider leave the store alone.
  pub record IsQuiet : Type 0 where
    pub clock_keeps :
        (w : W) (m : A → Option (CacheRecord A))
        → cache.Holds w m
        → cache.Holds (tick lib platform self self.clock w).1 m
    pub provider_keeps :
        (ip : A) (s : State W) (m : A → Option (CacheRecord A))
        → cache.Holds s.world m
        → cache.Holds (self.provider.lookup ip s).1.world m

  -- A call whose result is known, with the state behind it.
  pair : {R : Type 0} {o : Result R × State W} {r : Result R} → o.0 ≡ r → o ≡ (r, o.1)
  pair {R} {o} e = ap (λ (x : Result R). (x, o.1)) e

  module _ (q : IsQuiet) (value : Text) (ip : A)
      (valid : validate_public_ip lib value ≡ ok ip) where
    -- The state in which a lookup has read its cache.
    abbrev pub read_state : State W → State W
    read_state s = (self.repository.get ip (started lib platform self s)).1

    read_lem :
        (m : A → Option (CacheRecord A)) (s : State W)
        → cache.Holds s.world m
        → cache.Accepts ip
        → (lookup lib platform self value s
            ≡ by_cache lib platform self ip (start_time lib platform self s) (m ip) (read_state s))
          × cache.Holds (read_state s).world m
          × ((read_state s).calls ≡ s.calls ++ select (cache.key ip) ∷ [])
    read_lem m s holds accepts =
        let g =
          cache.get_lem m ip (started lib platform self s) (q.clock_keeps s.world m holds)
            accepts in
        (lookup_read lib platform self value ip s (read_state s) (m ip) valid (pair g.0), g.1, g.2)

    -- A record that the store holds for the address and that has not expired is the answer, the
    -- store stays as it is, and the only call is one read. Reading the clock leaves the store alone.
    pub lookup_cached :
        (m : A → Option (CacheRecord A)) (c : CacheRecord A) (s : State W)
        → cache.Holds s.world m
        → cache.Accepts ip
        → m ip ≡ some c
        → gt c.expires_at (start_time lib platform self s) ≡ some true
        → ((lookup lib platform self value s).0 ≡ ok (cached_result ip c))
          × cache.Holds (lookup lib platform self value s).1.world m
          × ((lookup lib platform self value s).1.calls ≡ s.calls ++ select (cache.key ip) ∷ [])
    unfolding hit
    lookup_cached m c s holds accepts found fresh =
        let (run, held, read) = read_lem m s holds accepts in
        rw (run, found, fresh) (refl, held, read)

    -- What a refresh starts from: the provider's answer in the state behind the cache, and the record
    -- that is made of it.
    abbrev pub asked : State W → State W
    asked s = (self.provider.lookup ip (read_state s)).1

    abbrev pub made : State W → GeoIpResult → Datetime → CacheRecord A
    made s r expires = record {
      ip = ip;
      country_code = r.country_code;
      country_name = r.country_name;
      provider = r.provider;
      fetched_at = start_time lib platform self (asked s);
      expires_at = expires;
    }

    stale_run :
        (now : Datetime) (o : Option (CacheRecord A)) (t : State W)
        → IsStale now o
        → by_cache lib platform self ip now o t ≡ miss lib platform self ip t
    stale_run now none t h = refl
    stale_run now (some c) t h = rw h

    -- Without a record, or with one that has expired, a provider's answer is stored with its time
    -- and lifetime, and returned, if the record is storable, its expiry is a `datetime`, and reading
    -- the clock and asking the provider leave the store alone. Behind the read and the provider's
    -- calls stands one write.
    pub lookup_refreshed :
        (m : A → Option (CacheRecord A)) (s : State W) (r : GeoIpResult) (expires : Datetime)
        → cache.Holds s.world m
        → cache.Accepts ip
        → IsStale (start_time lib platform self s) (m ip)
        → (self.provider.lookup ip (read_state s)).0 ≡ ok r
        → add_seconds (start_time lib platform self (asked s)) self.ttl_seconds ≡ some expires
        → cache.Storable (made s r expires)
        → ((lookup lib platform self value s).0 ≡ ok (new_result ip (made s r expires)))
          × cache.Holds
              (lookup lib platform self value s).1.world
              (cache.update m (made s r expires))
          × ((lookup lib platform self value s).1.calls
              ≡ (asked s).calls ++ insert (cache.key ip) ∷ [])
    unfolding miss
    lookup_refreshed m s r expires holds accepts stale answers fits storable =
        let (run, held, read) = read_lem m s holds accepts in
        let held' = q.clock_keeps _ m (q.provider_keeps ip (read_state s) m held) in
        let (done, stored, written) =
          cache.upsert_lem m (made s r expires) (started lib platform self (asked s)) held' accepts
            storable in
        let done' =
          refresh_done lib platform self ip r expires (read_state s) (asked s) _ (pair answers) fits
            (pair done) in
        rw (run, stale_run _ (m ip) (read_state s) stale, miss, done') (refl, stored, written)

  -- A lookup that has asked the provider leaves the answer for the next one. The first text names an
  -- address without a record, or with one that has expired, the provider answers, the record is
  -- storable and its expiry is a `datetime`; reading the clock and asking the provider leave the
  -- store alone. Then any text that names the address is answered from the cache before the expiry,
  -- with the same country and times, and no call but a read.
  pub lookup_twice :
      (q : IsQuiet) (first second : Text) (ip : A)
      → (v : validate_public_ip lib first ≡ ok ip) → validate_public_ip lib second ≡ ok ip
      → (m : A → Option (CacheRecord A)) (s : State W) (r : GeoIpResult) (expires : Datetime)
      → cache.Holds s.world m
      → cache.Accepts ip
      → IsStale (start_time lib platform self s) (m ip)
      → (self.provider.lookup ip (read_state q first ip v s)).0 ≡ ok r
      → add_seconds (start_time lib platform self (asked q first ip v s)) self.ttl_seconds
        ≡ some expires
      → cache.Storable (made q first ip v s r expires)
      → gt expires (start_time lib platform self (lookup lib platform self first s).1) ≡ some true
      → ((lookup lib platform self second (lookup lib platform self first s).1).0
          ≡ ok (cached_result ip (made q first ip v s r expires)))
        × ((lookup lib platform self second (lookup lib platform self first s).1).1.calls
            ≡ (lookup lib platform self first s).1.calls ++ select (cache.key ip) ∷ [])
  lookup_twice q first second ip v v' m s r expires holds accepts stale answers fits storable
        fresh =
      let rec = made q first ip v s r expires in
      let (_, held, _) =
        lookup_refreshed q first ip v m s r expires holds accepts stale answers fits storable in
      let (result, _, calls) =
        lookup_cached q second ip v' (cache.update m rec) rec (lookup lib platform self first s).1
          held accepts (cache.update_self m rec) fresh in
      (result, calls)
