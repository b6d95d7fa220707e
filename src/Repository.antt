-- ===== src/Repository.antt =====
-- repositories/ip_lookup_repository.py: the protocol, and its implementation over PostgreSQL.
pub mod Cache
pub mod Interface
pub mod Refinement
pub mod Runs
pub mod Writes
use arvan_ip_country_api.Prelude.{
  String, Bool, true, false, Option, none, some, [], ◌∷◌, if◌then◌else◌,
}
use arvan_ip_country_api.Text.{Text}
use arvan_ip_country_api.Domain.Errors.{database_unavailable}
use arvan_ip_country_api.Domain.Datetime.{Datetime, utc}
use arvan_ip_country_api.Domain.IpValidation.{IpLibrary}
use arvan_ip_country_api.Domain.Models.{CacheRecord}
use arvan_ip_country_api.Observability.Metrics
use arvan_ip_country_api.Effects.{
  Exception, Result, ok, raised, app, value_error, overflow_error, sql_error, select, insert, Exec,
  Clock, read_counter, utc_now, count_elapsed, count, reach, note, finally, catch, ◌>>=◌,
}
use arvan_ip_country_api.Database.{Row, Session, Statement, Column, excluded, param}

-- `LookupRepository`
pub record LookupRepository (A W : Type 0) : Type 0 where
  pub get : A → Exec W (Option (CacheRecord A))
  pub upsert : CacheRecord A → Exec W (Unit {0})

-- `except (DBAPIError, SQLAlchemyError)`
unfoldable pub is_sql_error : Exception → Bool
is_sql_error (sql_error state) = true
is_sql_error _ = false

-- The handler of both methods.
unfoldable pub translate : {W R : Type 0} → String → Exception → Exec W R
translate operation e s =
    if is_sql_error e
    then (
      raised (app database_unavailable),
      count (Metrics.database_error operation "unavailable") s,
    )
    else (raised e, s)

abbrev pub of_times :
    {A : Type 0} → A → Row → Option Datetime → Option Datetime → Result (Option (CacheRecord A))
of_times ip row none expires = raised overflow_error
of_times ip row (some fetched) none = raised overflow_error
of_times ip row (some fetched) (some expires) = ok (
    some (record {
      ip = ip;
      country_code = row.country_code;
      country_name = row.country_name;
      provider = row.provider;
      fetched_at = fetched;
      expires_at = expires;
    }))

abbrev pub of_address : {A : Type 0} → Option A → Row → Result (Option (CacheRecord A))
of_address none row = raised value_error
of_address (some ip) row = of_times ip row (utc row.fetched_at) (utc row.expires_at)

-- `CacheRecord(ip=ip_address(str(row.ip_address)), ...)`, or `None` for no row.
unfoldable pub read_row : {A : Type 0} → IpLibrary A → Option Row → Result (Option (CacheRecord A))
read_row lib none = ok none
read_row lib (some row) = of_address (lib.ip_address row.ip_address) row

-- The statement of `upsert`.
unfoldable pub upsert_statement : {A : Type 0} → IpLibrary A → CacheRecord A → Datetime → Statement
upsert_statement lib rec now = record {
  values = record {
    ip_address = lib.str rec.ip;
    country_code = rec.country_code;
    country_name = rec.country_name;
    provider = rec.provider;
    fetched_at = rec.fetched_at;
    expires_at = rec.expires_at;
    created_at = now;
    updated_at = now;
  };
  index_elements = Column.ip_address ∷ [];
  set_ =
      (Column.country_code, excluded Column.country_code)
      ∷ (Column.country_name, excluded Column.country_name)
      ∷ (Column.provider, excluded Column.provider)
      ∷ (Column.fetched_at, excluded Column.fetched_at)
      ∷ (Column.expires_at, excluded Column.expires_at)
      ∷ (Column.updated_at, param now)
      ∷ [];
}

module _ {A W : Type 0} (lib : IpLibrary A) (session : Session W) (clock : Clock W) where
  -- The awaited calls of the session.
  abbrev pub select_row : Text → Exec W (Option Row)
  select_row key s = let (r, w) = session.scalar key s.world in (r, note (select key) (reach w s))

  abbrev pub run_statement : Statement → Exec W (Unit {0})
  run_statement st s =
      let (r, w) = session.execute st s.world in (r, note (insert st.values.ip_address) (reach w s))

  unfoldable pub get : A → Exec W (Option (CacheRecord A))
  get ip = do
    started ← read_counter clock
    row ←
        finally (catch (select_row (lib.str ip)) (translate "read"))
          (count_elapsed clock (Metrics.database_operation "read") started)
    λ s. (read_row lib row, s)

  unfoldable pub upsert : CacheRecord A → Exec W (Unit {0})
  upsert rec = do
    started ← read_counter clock
    now ← utc_now clock
    finally (catch (run_statement (upsert_statement lib rec now)) (translate "upsert"))
        (count_elapsed clock (Metrics.database_operation "upsert") started)

  -- `PostgreSQLLookupRepository`
  unfoldable pub postgres_repository : LookupRepository A W
  unfolding get upsert
  postgres_repository = record { get = get; upsert = upsert }
