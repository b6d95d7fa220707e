-- ===== src/Database/Postgres.antt =====
-- What the repository relies on in PostgreSQL, SQLAlchemy and psycopg, as hypotheses: a read returns
-- the row under its key, and `INSERT ... ON CONFLICT ... DO UPDATE` inserts or assigns.
use mathlib.Core.Option
use arvan_ip_country_api.Prelude.{
  ◌+◌, ◌≤◌, ◌<◌, ◌≡◌, Bool, true, false, not, ◌&&◌, Option, none, some, List, [], ◌∷◌,
  if◌then◌else◌, length, ℕ, all, leb, ◌==◌,
}
use arvan_ip_country_api.Text.{Text, text_eq}
use arvan_ip_country_api.Domain.Datetime.{
  Datetime, Offset, utc_zone, ahead, behind, one_day, end_of_time,
}
use arvan_ip_country_api.Effects.{ok, Clock}
use arvan_ip_country_api.Database.{
  Row, Session, Statement, Expr, excluded, param, Column, ip_address, country_code, country_name,
  provider, fetched_at, expires_at, created_at, updated_at,
}

pub data Value : Type 0 where
  text : Text → Value
  time : Datetime → Value

abbrev pub get_column : Column → Row → Value
get_column ip_address r = text r.ip_address
get_column country_code r = text r.country_code
get_column country_name r = text r.country_name
get_column provider r = text r.provider
get_column fetched_at r = time r.fetched_at
get_column expires_at r = time r.expires_at
get_column created_at r = time r.created_at
get_column updated_at r = time r.updated_at

-- A value of another type than its column is left out: PostgreSQL refuses such a statement.
abbrev pub set_column : Column → Value → Row → Row
set_column ip_address (text v) r = record r { ip_address = v }
set_column country_code (text v) r = record r { country_code = v }
set_column country_name (text v) r = record r { country_name = v }
set_column provider (text v) r = record r { provider = v }
set_column fetched_at (time v) r = record r { fetched_at = v }
set_column expires_at (time v) r = record r { expires_at = v }
set_column created_at (time v) r = record r { created_at = v }
set_column updated_at (time v) r = record r { updated_at = v }
set_column _ _ r = r

abbrev pub eval : Row → Expr → Value
eval new (excluded c) = get_column c new
eval new (param d) = time d

-- `SET column = expression, ...`
abbrev pub assign : List (Column × Expr) → Row → Row → Row
assign [] new old = old
assign ((c, e) ∷ rest) new old = assign rest new (set_column c (eval new e) old)

-- Assignments that leave the primary key alone.
abbrev pub is_key : Column → Bool
is_key ip_address = true
is_key _ = false

abbrev pub keeps_key : List (Column × Expr) → Bool
keeps_key [] = true
keeps_key ((c, e) ∷ rest) = not (is_key c) && keeps_key rest

-- The row under the key after the statement.
abbrev pub merge : Statement → Option Row → Row
merge st none = st.values
merge st (some old) = assign st.set_ st.values old

-- A character that a text of PostgreSQL can hold: any but NUL, and but the surrogates, which have no
-- encoding in UTF-8.
abbrev pub is_storable_char : ℕ → Bool
is_storable_char c = not (c == 0) && not (leb 0xd800 c && leb c 0xdfff)

abbrev pub is_storable : Text → Bool
is_storable = all is_storable_char

-- VARCHAR(2), VARCHAR(128) and VARCHAR(32)
pub record Fits (r : Row) : Type 0 where
  pub code_storable : is_storable r.country_code ≡ true
  pub name_storable : is_storable r.country_name ≡ true
  pub provider_storable : is_storable r.provider ≡ true
  pub country_code : length r.country_code ≤ 2
  pub country_name : length r.country_name ≤ 128
  pub provider : length r.provider ≤ 32

-- The same instant, in whatever zone the connection has.
pub record SameInstant (d e : Datetime) : Type 0 where
  pub zone : Offset
  pub aware : d.tzinfo ≡ some zone
  pub instant :
      d.local + behind d.tzinfo + ahead e.tzinfo ≡ e.local + behind e.tzinfo + ahead d.tzinfo

pub record SameRow (r q : Row) : Type 0 where
  pub ip_address : r.ip_address ≡ q.ip_address
  pub country_code : r.country_code ≡ q.country_code
  pub country_name : r.country_name ≡ q.country_name
  pub provider : r.provider ≡ q.provider
  pub fetched_at : SameInstant r.fetched_at q.fetched_at
  pub expires_at : SameInstant r.expires_at q.expires_at

-- A time as `datetime.now(UTC)` gives it, which is a `datetime` in every other zone too: no zone is a day away from
-- UTC.
pub record IsUtc (d : Datetime) : Type 0 where
  pub zone : d.tzinfo ≡ utc_zone
  pub after_start : one_day ≤ d.local
  pub before_end : d.local + one_day < end_of_time

-- A database that answers while it is up. `shown` is a stored row as psycopg returns it.
-- `is_inet` tells the texts that an INET column takes and that `ipaddress` prints for their value, so that a value has
-- one such text.
pub record IsPostgres {W : Type 0} (session : Session W) : Type 0 where
  pub up : W → Bool
  pub is_inet : Text → Bool
  pub table : W → Text → Option Row
  pub shown : Row → Row
  pub shown_row : (r : Row) → IsUtc r.fetched_at → IsUtc r.expires_at → SameRow (shown r) r
  pub key_of : (w : W) (key : Text) (r : Row) → table w key ≡ some r → r.ip_address ≡ key
  pub scalar_found :
      (key : Text) (w : W)
      → up w ≡ true
      → is_inet key ≡ true
      → (session.scalar key w).0 ≡ ok (Option.map shown (table w key))
  pub scalar_keeps : (key j : Text) (w : W) → table (session.scalar key w).1 j ≡ table w j
  pub scalar_up : (key : Text) (w : W) → up (session.scalar key w).1 ≡ up w
  pub execute_done :
      (st : Statement) (w : W)
      → up w ≡ true
      → is_inet st.values.ip_address ≡ true
      → Fits st.values
      → keeps_key st.set_ ≡ true
      → (session.execute st w).0 ≡ ok tt
  pub execute_writes :
      (st : Statement) (w : W) (j : Text)
      → up w ≡ true
      → is_inet st.values.ip_address ≡ true
      → Fits st.values
      → keeps_key st.set_ ≡ true
      → table (session.execute st w).1 j ≡ (
          if text_eq j st.values.ip_address
          then some (merge st (table w st.values.ip_address))
          else table w j)
  pub execute_up : (st : Statement) (w : W) → up (session.execute st w).1 ≡ up w

-- Reading a clock leaves the database alone, and `datetime.now(UTC)` is in UTC.
pub record IsClock {W : Type 0} {session : Session W} (pg : IsPostgres session) (clock : Clock W)
    : Type 0 where
  pub now_IsUtc : (w : W) → IsUtc (clock.now w).0
  pub now_keeps : (w : W) (j : Text) → pg.table (clock.now w).1 j ≡ pg.table w j
  pub now_up : (w : W) → pg.up (clock.now w).1 ≡ pg.up w
  pub counter_keeps : (w : W) (j : Text) → pg.table (clock.perf_counter w).1 j ≡ pg.table w j
  pub counter_up : (w : W) → pg.up (clock.perf_counter w).1 ≡ pg.up w
