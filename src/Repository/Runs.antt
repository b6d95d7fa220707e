-- ===== src/Repository/Runs.antt =====
-- The runs of the repository's methods, one equation for each way they end.
use arvan_ip_country_api.Prelude.{String, Bool-cases, inl, inr, ◌≡◌, Option, if◌then◌else◌}
use arvan_ip_country_api.Domain.Errors.{database_unavailable}
use arvan_ip_country_api.Domain.Datetime.{Datetime}
use arvan_ip_country_api.Domain.IpValidation.{IpLibrary}
use arvan_ip_country_api.Domain.Models.{CacheRecord}
use arvan_ip_country_api.Observability.Metrics
use arvan_ip_country_api.Effects.{
  Exception, ok, raised, app, select, insert, State, Clock, count_elapsed, count, reach, note,
}
use arvan_ip_country_api.Database.{Row, Session}
use arvan_ip_country_api.Repository.{
  get, upsert, upsert_statement, read_row, is_sql_error, translate,
}

module _ {A W : Type 0} (lib : IpLibrary A) (session : Session W) (clock : Clock W) where
  -- The world in which the row is read, and the one after it.
  abbrev pub before_read : State W → W
  before_read s = (clock.perf_counter s.world).1

  -- The state behind the awaited read.
  abbrev pub read_state : A → State W → State W
  read_state a s =
      note (select (lib.str a)) (reach (session.scalar (lib.str a) (before_read s)).1 s)

  -- The `finally` block: the operation is counted, with its duration.
  abbrev pub closed : String → State W → State W → State W
  closed operation s t =
      count_elapsed clock (Metrics.database_operation operation) (clock.perf_counter s.world).0 t

  pub get-ok :
      (a : A) (s : State W) (row : Option Row)
      → (session.scalar (lib.str a) (before_read s)).0 ≡ ok row
      → get lib session clock a s ≡ (read_row lib row, closed "read" s (read_state a s))
  unfolding get
  get-ok a s row h = rw (h, get)

  pub get-raised :
      (a : A) (s : State W) (e : Exception)
      → (session.scalar (lib.str a) (before_read s)).0 ≡ raised e
      → get lib session clock a s ≡ (
          if is_sql_error e
          then (
            raised (app database_unavailable),
            closed "read" s (count (Metrics.database_error "read" "unavailable") (read_state a s)),
          )
          else (raised e, closed "read" s (read_state a s)))
  unfolding get translate
  get-raised a s e h = elim (Bool-cases (is_sql_error e)) [
    | inl y ↦ rw (h, y, get)
    | inr n ↦ rw (h, n, get)
  ]

  -- The same for `upsert`, which reads the time of the write first.
  abbrev pub before_write : State W → W
  before_write s = (clock.now (clock.perf_counter s.world).1).1

  abbrev pub write_time : State W → Datetime
  write_time s = (clock.now (clock.perf_counter s.world).1).0

  abbrev pub write_state : CacheRecord A → State W → State W
  write_state rec s =
      note (insert (lib.str rec.ip))
        (reach (session.execute (upsert_statement lib rec (write_time s)) (before_write s)).1 s)

  pub upsert-ok :
      (rec : CacheRecord A) (s : State W)
      → (session.execute (upsert_statement lib rec (write_time s)) (before_write s)).0 ≡ ok tt
      → upsert lib session clock rec s ≡ (ok tt, closed "upsert" s (write_state rec s))
  unfolding upsert upsert_statement
  upsert-ok rec s h = rw (h, upsert)

  pub upsert-raised :
      (rec : CacheRecord A) (s : State W) (e : Exception)
      → (session.execute (upsert_statement lib rec (write_time s)) (before_write s)).0 ≡ raised e
      → upsert lib session clock rec s ≡ (
          if is_sql_error e
          then (
            raised (app database_unavailable),
            closed "upsert" s
                (count (Metrics.database_error "upsert" "unavailable") (write_state rec s)),
          )
          else (raised e, closed "upsert" s (write_state rec s)))
  unfolding upsert upsert_statement translate
  upsert-raised rec s e h = elim (Bool-cases (is_sql_error e)) [
    | inl y ↦ rw (h, y, upsert)
    | inr n ↦ rw (h, n, upsert)
  ]
