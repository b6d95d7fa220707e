-- ===== src/Service/Counting/Lookups.antt =====
-- What a lookup counts over a repository and a provider that count no lookups.
use arvan_ip_country_api.Prelude.{
  ◌≡◌, refl, ap, ◌∙◌, inl, inr, Bool, true, false, Option, none, some, [], ◌∷◌, ◌++◌, Bool-cases,
}
use arvan_ip_country_api.Text.{Text}
use arvan_ip_country_api.Domain.Datetime.{Datetime, gt, add_seconds}
use arvan_ip_country_api.Domain.IpValidation.{IpLibrary, validate_public_ip}
use arvan_ip_country_api.Domain.Models.{CacheRecord, GeoIpResult, LookupResult}
use arvan_ip_country_api.Observability.Metrics.{ApplicationMetrics}
use arvan_ip_country_api.Observability.Metrics
use arvan_ip_country_api.Effects.{
  Exec, Result, ok, raised, is_exception, State, Clock, count, write, continue, catch, ◌>>=◌, ◌>>◌,
}
use arvan_ip_country_api.Service.{
  IpLookupService, lookup, read_clock, refresh, miss, hit, by_age, by_cache, new_record, new_result,
  cached_result, count_failure, completed,
}
use arvan_ip_country_api.Service.Runs.{
  start_time, started, lookup_read, lookup_unread, lookup_refused,
}
use arvan_ip_country_api.Service.Counting.{
  counted, Keeps, Keeps-trans, Keeps-refl, Counted, labels_of, lookup-counted, IsSilent,
}

module _ {A W : Type 0} (lib : IpLibrary A) (platform : Clock W) (self : IpLookupService A W) where
  bind-Keeps :
      (R S : Type 0) (f : R → Exec W S) (m : ApplicationMetrics) (o : Result R × State W)
      → Keeps m o.1.metrics
      → ((r : R) (t : State W) → Keeps t.metrics (f r t).1.metrics)
      → Keeps m (continue f o.0 o.1).1.metrics
  bind-Keeps R S f m (ok r, t) h k = Keeps-trans m t.metrics (f r t).1.metrics h (k r t)
  bind-Keeps R S f m (raised e, t) h k = h

  module _ (silent : IsSilent lib platform self) where
    refresh-Keeps :
        (ip : A) (s : State W) → Keeps s.metrics (refresh lib platform self ip s).1.metrics
    unfolding refresh read_clock
    refresh-Keeps ip s =
        bind-Keeps GeoIpResult (CacheRecord A) _ s.metrics (self.provider.lookup ip s)
          (silent.lookup_lem ip s)
          λ r t.
            stored r (start_time lib platform self t)
              (add_seconds (start_time lib platform self t) self.ttl_seconds)
              (started lib platform self t)
      where
        stored :
            (r : GeoIpResult) (now : Datetime) (expires : Option Datetime) (t : State W)
            → Keeps t.metrics
                (continue
                  (λ rec. self.repository.upsert rec >> (λ s. (ok rec, s)))
                  (new_record ip r now expires)
                  t).1.metrics
        stored r now none t = Keeps-refl t.metrics
        stored r now (some expires) t =
            bind-Keeps (Unit {0}) (CacheRecord A) _ t.metrics (self.repository.upsert _ t)
              (silent.upsert_lem _ t) (λ u v. Keeps-refl v.metrics)

    -- What a miss does behind its refresh.
    abbrev respond : A → Exec W (CacheRecord A) → Exec W (LookupResult A)
    respond ip m = do
      rec ← catch m count_failure
      λ s. (
        ok (new_result ip rec),
        write (completed "provider") (count (Metrics.lookup "provider" "success") s),
      )

    respond-Counted :
        (ip : A) (m : ApplicationMetrics) (o : Result (CacheRecord A) × State W) (s : State W)
        → Keeps m o.1.metrics
        → m.enabled ≡ true
        → Counted (counted m.samples) (respond ip (λ t. o) s).0 (respond ip (λ t. o) s).1.metrics
    unfolding new_result count_failure
    respond-Counted ip m (ok rec, t) s h on =
        lookup-counted "provider" "success" t.metrics (h.enabled ∙ on)
        ∙ ap (λ l. l ++ labels_of "provider" "success" ∷ []) h.lookups
    respond-Counted ip m (raised e, t) s h on = elim (Bool-cases (is_exception e)) [
      | inl y ↦ rw y (
          inr (
            lookup-counted "provider" "error" t.metrics (h.enabled ∙ on)
            ∙ ap (λ l. l ++ labels_of "provider" "error" ∷ []) h.lookups))
      | inr y ↦ rw y (inl h.lookups)
    ]

    miss-Counted :
        (ip : A) (m : ApplicationMetrics) (s : State W)
        → Keeps m s.metrics
        → m.enabled ≡ true
        → Counted
            (counted m.samples)
            (miss lib platform self ip s).0
            (miss lib platform self ip s).1.metrics
    unfolding miss
    miss-Counted ip m s h on =
        respond-Counted ip m (refresh lib platform self ip s) s
          (Keeps-trans m s.metrics (refresh lib platform self ip s).1.metrics h
            (refresh-Keeps ip s))
          on

    by_cache-Counted :
        (ip : A) (now : Datetime) (found : Option (CacheRecord A)) (m : ApplicationMetrics)
        (s : State W)
        → Keeps m s.metrics
        → m.enabled ≡ true
        → Counted
            (counted m.samples)
            (by_cache lib platform self ip now found s).0
            (by_cache lib platform self ip now found s).1.metrics
    unfolding hit cached_result
    by_cache-Counted ip now none m s h on = miss-Counted ip m s h on
    by_cache-Counted ip now (some c) m s h on = by_age-Counted (gt c.expires_at now)
      where
        by_age-Counted :
            (b : Option Bool)
            → Counted
                (counted m.samples)
                (by_age lib platform self ip c b s).0
                (by_age lib platform self ip c b s).1.metrics
        by_age-Counted none = inl h.lookups
        by_age-Counted (some true) =
            lookup-counted "database" "success" s.metrics (h.enabled ∙ on)
            ∙ ap (λ l. l ++ labels_of "database" "success" ∷ []) h.lookups
        by_age-Counted (some false) = miss-Counted ip m s h on

    read-Counted :
        (value : Text) (ip : A) (s : State W) (o : Result (Option (CacheRecord A)) × State W)
        → validate_public_ip lib value ≡ ok ip
        → self.repository.get ip (started lib platform self s) ≡ o
        → Keeps s.metrics o.1.metrics
        → s.metrics.enabled ≡ true
        → Counted
            (counted s.metrics.samples)
            (lookup lib platform self value s).0
            (lookup lib platform self value s).1.metrics
    read-Counted value ip s (ok found, t) v g h on =
        rw (lookup_read lib platform self value ip s t found v g)
          (by_cache-Counted ip (start_time lib platform self s) found s.metrics t h on)
    read-Counted value ip s (raised e, t) v g h on =
        rw (lookup_unread lib platform self value ip e s t v g) (inl h.lookups)

    -- If metrics are enabled and the repository and the provider count no lookups, a lookup that answers is
    -- counted once, as a success of the source that the answer names, and one that raises is not counted,
    -- or once as an error of the provider.
    pub lookup-Counted :
        (value : Text) (s : State W)
        → s.metrics.enabled ≡ true
        → Counted
            (counted s.metrics.samples)
            (lookup lib platform self value s).0
            (lookup lib platform self value s).1.metrics
    lookup-Counted value s on = go (validate_public_ip lib value) refl
      where
        go :
            (r : Result A)
            → validate_public_ip lib value ≡ r
            → Counted
                (counted s.metrics.samples)
                (lookup lib platform self value s).0
                (lookup lib platform self value s).1.metrics
        go (ok ip) v =
            read-Counted value ip s _ v refl (silent.get_lem ip (started lib platform self s)) on
        go (raised e) v = rw (lookup_refused lib platform self value e s v) (inl refl)
