-- ===== src/Api/Health.antt =====
-- api/health.py, and the readiness check that lifespan.py gives it.
pub mod Laws
use arvan_ip_country_api.Prelude.{
  String, Bool, false, ◌||◌, Option, none, some, [], ◌∷◌, name_eq, if◌then◌else◌, ℕ,
}
use arvan_ip_country_api.Domain.Errors.{database_unavailable, database_schema_unavailable}
use arvan_ip_country_api.Effects.{
  Exception, Exec, Result, ok, raised, app, timeout_error, operational_error, sql_error, State,
  catch,
}
use arvan_ip_country_api.Api.{Response, health}

abbrev is_schema_error : Option String → Bool
is_schema_error none = false
is_schema_error (some sqlstate) = name_eq sqlstate "42P01" || name_eq sqlstate "3F000"

-- The two handlers of `check`.
unfoldable pub classify : Exception → Exception
classify timeout_error = app database_unavailable
classify operational_error = app database_unavailable
classify (sql_error sqlstate) =
    if is_schema_error sqlstate then app database_schema_unavailable else app database_unavailable
classify e = e

-- `live`
unfoldable pub live : String → Response
live version = record {
  status_code = 200;
  content = health (("status", "alive") ∷ ("version", version) ∷ []);
}

abbrev pub report : ℕ → String → String → String → String → Response
report status_code status database schema version = record {
  status_code = status_code;
  content = health (
      ("status", status) ∷ ("database", database) ∷ ("schema", schema) ∷ ("version", version) ∷ []);
}

module _ {W : Type 0} where
  -- `_readiness_check(engine, timeout)`, where `probe` connects and selects from the table in the time given.
  unfoldable pub check : Exec W (Unit {0}) → Exec W (Unit {0})
  check probe = catch probe (λ e s. (raised (classify e), s))

  abbrev pub of_check : String → Result (Unit {0}) → State W → Result Response × State W
  of_check version (ok u) s = (ok (report 200 "ready" "available" "available" version), s)
  of_check version (raised (app database_schema_unavailable)) s =
      (ok (report 503 "not_ready" "available" "unavailable" version), s)
  of_check version (raised (app database_unavailable)) s =
      (ok (report 503 "not_ready" "unavailable" "unknown" version), s)
  of_check version (raised e) s = (raised e, s)

  -- `ready`
  unfoldable pub ready : String → Exec W (Unit {0}) → Exec W Response
  ready version probe s = let (r, t) = check probe s in of_check version r t
