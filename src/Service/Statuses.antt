-- ===== src/Service/Statuses.antt =====
-- How a lookup may fail: refusals of the text, and the statuses that api/lookups.py documents.
use arvan_ip_country_api.Prelude.{
  ℕ, ◌≡◌, refl, ap, ◌∙◌, ◌⊎◌, inl, inr, Bool, true, false, Option, none, some, List, [], ◌∷◌, arith,
  ◌==◌, any, Bool-cases,
}
use arvan_ip_country_api.Text.{Text}
use arvan_ip_country_api.Domain.Errors.{AppError, status_code, invalid_ip, non_public_ip}
use arvan_ip_country_api.Domain.Datetime.{Datetime, gt, add_seconds}
use arvan_ip_country_api.Domain.IpValidation.{IpLibrary, validate_public_ip}
use arvan_ip_country_api.Domain.IpValidation.Laws.{IsPublic, validate_iff, validate_errors}
use arvan_ip_country_api.Domain.Models.{CacheRecord, GeoIpResult}
use arvan_ip_country_api.Effects.{
  Exception, Result, ok, raised, app, is_exception, Exec, State, Clock, continue, handle, ◌>>◌,
  catch,
}
use arvan_ip_country_api.Service.{
  IpLookupService, read_clock, lookup, refresh, miss, hit, by_cache, by_age, count_failure,
  new_record,
}
use arvan_ip_country_api.Service.Runs.{started, start_time, lookup_refused}

-- The statuses that the route documents beside 200: `responses={422: ..., 502: ..., 503: ..., 504: ...}`.
abbrev pub documented_statuses : List ℕ
documented_statuses = 422 ∷ 502 ∷ 503 ∷ 504 ∷ []

unfoldable pub is_documented : AppError → Bool
unfolding status_code
is_documented e = any (λ s. s == status_code e) documented_statuses

-- An error that the program raises on purpose has a documented status. Other exceptions are not errors of
-- the program's, and end in status 500.
abbrev pub Documented : {R : Type 0} → Result R → Type 0
Documented (ok r) = Unit
Documented (raised (app e)) = is_documented e ≡ true
Documented (raised _) = Unit

pub raised-Documented :
    (R S : Type 0) (e : Exception) → Documented {R = R} (raised e) → Documented {R = S} (raised e)
raised-Documented R S (app e) h = h
raised-Documented R S _ h = tt

module _ {W R S : Type 0} where
  bind-Documented :
      (f : R → Exec W S) (o : Result R × State W)
      → Documented o.0
      → ((r : R) (t : State W) → Documented (f r t).0)
      → Documented (continue f o.0 o.1).0
  bind-Documented f (ok r, t) h k = k r t
  bind-Documented f (raised e, t) h k = raised-Documented R S e h

-- Counting a failure raises it again.
module _ {W R : Type 0} where
  catch-Documented :
      (o : Result R × State W) → Documented o.0 → Documented (handle count_failure o.0 o.1).0
  unfolding count_failure
  catch-Documented (ok r, t) h = tt
  catch-Documented (raised e, t) h = elim (Bool-cases (is_exception e)) [
    | inl y ↦ rw y h
    | inr y ↦ rw y h
  ]

validate-Documented :
    {A : Type 0} (lib : IpLibrary A) (value : Text) (r : Result A)
    → validate_public_ip lib value ≡ r
    → Documented r
unfolding is_documented
validate-Documented lib value (ok ip) h = tt
validate-Documented lib value (raised (app e)) h = elim (validate_errors lib value (app e) h) [
  | inl (x, _) ↦ ground arith
  | inr (a, x, _, _) ↦ ground arith
]
validate-Documented lib value (raised _) h = tt

module _ {A W : Type 0} (lib : IpLibrary A) (platform : Clock W) (self : IpLookupService A W) where
  -- Every text either is accepted as a public address, or the lookup refuses it with status 422 and
  -- with no effect at all: no call of the clock, the database or the provider, no sample and no log
  -- line.
  pub lookup_only-IsPublic :
      (value : Text) (s : State W)
      → ((ip : A) × (validate_public_ip lib value ≡ ok ip) × IsPublic lib ip)
        ⊎ ((e : AppError) × (lookup lib platform self value s ≡ (raised (app e), s))
            × (status_code e ≡ 422))
  unfolding status_code
  lookup_only-IsPublic value s = go (validate_public_ip lib value) refl
    where
      go :
          (r : Result A)
          → validate_public_ip lib value ≡ r
          → ((ip : A) × (validate_public_ip lib value ≡ ok ip) × IsPublic lib ip)
            ⊎ ((e : AppError) × (lookup lib platform self value s ≡ (raised (app e), s))
                × (status_code e ≡ 422))
      go (ok ip) h = inl (ip, h, ((validate_iff lib value ip).0 h).1)
      go (raised x) h = elim (validate_errors lib value x h) [
        | inl (e, _) ↦
            inr (invalid_ip, lookup_refused lib platform self value _ s (h ∙ ap raised e), refl)
        | inr (a, e, _, _) ↦
            inr (non_public_ip, lookup_refused lib platform self value _ s (h ∙ ap raised e), refl)
      ]

  -- The repository and the provider raise documented errors only.
  pub record IsDocumented : Type 0 where
    pub get_lem : (ip : A) (s : State W) → Documented (self.repository.get ip s).0
    pub upsert_lem :
        (rec : CacheRecord A) (s : State W) → Documented (self.repository.upsert rec s).0
    pub lookup_lem : (ip : A) (s : State W) → Documented (self.provider.lookup ip s).0

  module _ (d : IsDocumented) where
    refresh-Documented : (ip : A) (s : State W) → Documented (refresh lib platform self ip s).0
    unfolding refresh read_clock
    refresh-Documented ip s =
        bind-Documented _ (self.provider.lookup ip s) (d.lookup_lem ip s) λ r t.
          made r (start_time lib platform self t)
            (add_seconds (start_time lib platform self t) self.ttl_seconds)
            (started lib platform self t)
      where
        made :
            (r : GeoIpResult) (now : Datetime) (expires : Option Datetime) (t : State W)
            → Documented
                (continue
                  (λ rec. self.repository.upsert rec >> (λ s. (ok rec, s)))
                  (new_record ip r now expires)
                  t).0
        made r now none t = tt
        made r now (some expires) t =
            bind-Documented _ (self.repository.upsert _ t) (d.upsert_lem _ t) (λ u v. tt)

    miss-Documented : (ip : A) (s : State W) → Documented (miss lib platform self ip s).0
    unfolding miss
    miss-Documented ip s =
        bind-Documented _ (catch (refresh lib platform self ip) count_failure s)
          (catch-Documented (refresh lib platform self ip s) (refresh-Documented ip s)) (λ r t. tt)

    by_cache-Documented :
        (ip : A) (now : Datetime) (found : Option (CacheRecord A)) (s : State W)
        → Documented (by_cache lib platform self ip now found s).0
    unfolding hit
    by_cache-Documented ip now none s = miss-Documented ip s
    by_cache-Documented ip now (some c) s = by_age-Documented (gt c.expires_at now)
      where
        by_age-Documented : (b : Option Bool) → Documented (by_age lib platform self ip c b s).0
        by_age-Documented none = tt
        by_age-Documented (some true) = tt
        by_age-Documented (some false) = miss-Documented ip s

    -- A lookup raises errors of the documented statuses only.
    pub lookup-Documented :
        (value : Text) (s : State W) → Documented (lookup lib platform self value s).0
    unfolding lookup read_clock
    lookup-Documented value s =
        bind-Documented _ (validate_public_ip lib value, s) (validate-Documented lib value _ refl)
          λ ip t.
            bind-Documented _ (self.repository.get ip (started lib platform self t))
              (d.get_lem ip (started lib platform self t))
              λ found u. by_cache-Documented ip (start_time lib platform self t) found u
