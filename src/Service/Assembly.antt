-- ===== src/Service/Assembly.antt =====
-- The service as lifespan.py puts it together: the PostgreSQL repository with either provider.
use arvan_ip_country_api.Prelude.{
  ℕ, ◌≡◌, refl, true, Option, none, some, arith, Bool-cases, Option-cases, inl, inr,
}
use arvan_ip_country_api.Text.{Text, UnicodeTables}
use arvan_ip_country_api.Domain.Datetime.{utc}
use arvan_ip_country_api.Domain.IpValidation.{IpLibrary}
use arvan_ip_country_api.Domain.Models.{CacheRecord, GeoIpResult}
use arvan_ip_country_api.Effects.{Exception, Result, ok, raised, app, State, Clock}
use arvan_ip_country_api.Database.{Row, Session, Statement}
use arvan_ip_country_api.Repository.{
  get, upsert, read_row, of_address, is_sql_error, postgres_repository, upsert_statement,
}
use arvan_ip_country_api.Repository.Runs.{
  before_read, before_write, write_time, get-ok, get-raised, upsert-ok, upsert-raised,
}
use arvan_ip_country_api.Providers.Ipinfo.{IpinfoLiteProvider, Retrying, ipinfo_provider}
use arvan_ip_country_api.Providers.Ipinfo.Outcomes.{Leaves, is_provider_error}
use arvan_ip_country_api.Providers.Ipinfo.Requests.{IsHttpClient, is_foreign}
use arvan_ip_country_api.Providers.Ipinfo.Retries.{IsRetrying}
use arvan_ip_country_api.Providers.Ipinfo.Laws.{lookup_run}
use arvan_ip_country_api.Service.{IpLookupService, lookup}
use arvan_ip_country_api.Service.Statuses.{
  Documented, is_documented, IsDocumented, lookup-Documented,
}

-- SQLAlchemy and psycopg raise no class of the program.
pub record IsForeign {W : Type 0} (session : Session W) : Type 0 where
  pub scalar :
      (key : Text) (w : W) {e : Exception}
      → (session.scalar key w).0 ≡ raised e
      → is_foreign e ≡ true
  pub execute :
      (st : Statement) (w : W) {e : Exception}
      → (session.execute st w).0 ≡ raised e
      → is_foreign e ≡ true

-- `IPLookupService(repository, provider, ttl, metrics)` in IPinfo mode
abbrev pub ipinfo_service :
    {A W : Type 0}
    → IpLibrary A
    → Session W
    → Clock W
    → UnicodeTables
    → Retrying W
    → IpinfoLiteProvider W
    → ℕ
    → IpLookupService A W
ipinfo_service lib session clock tables retrying provider ttl_seconds = record {
  repository = postgres_repository lib session clock;
  provider = ipinfo_provider lib clock tables retrying provider;
  ttl_seconds = ttl_seconds;
  clock = none;
}

foreign-Documented :
    (R : Type 0) (e : Exception) → is_foreign e ≡ true → Documented {R = R} (raised e)
unfolding is_foreign
foreign-Documented R (app e) h = cc
foreign-Documented R _ h = tt

Leaves-Documented :
    (tables : UnicodeTables) (r : Result GeoIpResult) → Leaves tables r → Documented r
unfolding is_documented is_provider_error
Leaves-Documented tables (ok r) h = tt
Leaves-Documented tables (raised (app e)) h = ground arith
Leaves-Documented tables (raised _) h = tt

read_row-Documented :
    {A : Type 0} (lib : IpLibrary A) (o : Option Row) → Documented (read_row lib o)
unfolding read_row
read_row-Documented lib none = tt
read_row-Documented {A} lib (some row) = elim (Option-cases (lib.ip_address row.ip_address)) [
  | inl x ↦ rw x tt
  | inr (ip, x) ↦ rw x (times ip)
]
  where
    times : (ip : A) → Documented (of_address (some ip) row)
    times ip = elim (Option-cases (utc row.fetched_at)) [
      | inl x ↦ rw x tt
      | inr (fetched, x) ↦ elim (Option-cases (utc row.expires_at)) [
        | inl y ↦ rw (x, y) tt
        | inr (expires, y) ↦ rw (x, y) tt
      ]
    ]

module _ {A W : Type 0} (lib : IpLibrary A) (session : Session W) (clock : Clock W)
    (foreign : IsForeign session) where
  get-Documented : (ip : A) (s : State W) → Documented (get lib session clock ip s).0
  unfolding is_documented
  get-Documented ip s = go (session.scalar (lib.str ip) (before_read lib session clock s)).0 refl
    where
      go :
          (r : Result (Option Row))
          → (session.scalar (lib.str ip) (before_read lib session clock s)).0 ≡ r
          → Documented (get lib session clock ip s).0
      go (ok row) h = rw (get-ok lib session clock ip s row h) (read_row-Documented lib row)
      go (raised e) h = elim (Bool-cases (is_sql_error e)) [
        | inl y ↦ rw (get-raised lib session clock ip s e h, y) refl
        | inr y ↦
            rw (get-raised lib session clock ip s e h, y)
              (foreign-Documented (Option (CacheRecord A)) e
                (foreign.scalar (lib.str ip) (before_read lib session clock s) h))
      ]

  upsert-Documented :
      (rec : CacheRecord A) (s : State W) → Documented (upsert lib session clock rec s).0
  unfolding is_documented
  upsert-Documented rec s =
      go
        (session.execute (upsert_statement lib rec (write_time lib session clock s))
          (before_write lib session clock s)).0
        refl
    where
      go :
          (r : Result (Unit {0}))
          → (session.execute
              (upsert_statement lib rec (write_time lib session clock s))
              (before_write lib session clock s)).0
            ≡ r
          → Documented (upsert lib session clock rec s).0
      go (ok u) h = rw (upsert-ok lib session clock rec s h) tt
      go (raised e) h = elim (Bool-cases (is_sql_error e)) [
        | inl y ↦ rw (upsert-raised lib session clock rec s e h, y) refl
        | inr y ↦
            rw (upsert-raised lib session clock rec s e h, y)
              (foreign-Documented (Unit {0}) e (
                foreign.execute (upsert_statement lib rec (write_time lib session clock s))
                  (before_write lib session clock s) h))
      ]

  module _ (tables : UnicodeTables) (retrying : Retrying W) (provider : IpinfoLiteProvider W)
      (law : IsHttpClient provider.client) (repeats : IsRetrying retrying) (ttl_seconds : ℕ) where
    pub ipinfo-IsDocumented :
        IsDocumented lib clock
          (ipinfo_service lib session clock tables retrying provider ttl_seconds)
    ipinfo-IsDocumented = record {
      get_lem = unfold postgres_repository in get-Documented;
      upsert_lem = unfold postgres_repository in upsert-Documented;
      lookup_lem = λ ip t.
          unfold ipinfo_provider in
          Leaves-Documented tables _
            (lookup_run lib clock tables retrying provider law repeats ip t).leaves;
    }

    -- Whatever the database and the network do, an error that the program raises on purpose out of a
    -- lookup in IPinfo mode has one of the statuses 422, 502, 503 and 504 that the route documents,
    -- if the libraries raise no class of the program and tenacity makes the attempts that it is told
    -- to make.
    pub ipinfo_lookup-Documented :
        (value : Text) (s : State W)
        → Documented
            (lookup lib clock
              (ipinfo_service lib session clock tables retrying provider ttl_seconds)
              value
              s).0
    ipinfo_lookup-Documented value s =
        lookup-Documented lib clock
          (ipinfo_service lib session clock tables retrying provider ttl_seconds)
          ipinfo-IsDocumented value s
