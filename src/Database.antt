-- ===== src/Database.antt =====
-- database/: the table, its statements, the session that runs them, and the engine's URL.
pub mod Engine
pub mod Postgres
pub mod Migrations
use arvan_ip_country_api.Prelude.{List, Option}
use arvan_ip_country_api.Text.{Text}
use arvan_ip_country_api.Domain.Datetime.{Datetime}
use arvan_ip_country_api.Effects.{Result}

-- `IPLookupCache`. `ip_address` is the text of the INET value, `str(row.ip_address)`.
pub record Row : Type 0 where
  pub ip_address : Text
  pub country_code : Text
  pub country_name : Text
  pub provider : Text
  pub fetched_at : Datetime
  pub expires_at : Datetime
  pub created_at : Datetime
  pub updated_at : Datetime

pub data Column : Type 0 where
  ip_address country_code country_name provider fetched_at expires_at created_at : Column
  updated_at : Column

-- The right side of an assignment: `statement.excluded.column`, or a bound parameter.
pub data Expr : Type 0 where
  excluded : Column → Expr
  param : Datetime → Expr

-- `insert(IPLookupCache).values(...).on_conflict_do_update(index_elements=..., set_=...)`
pub record Statement : Type 0 where
  pub values : Row
  pub index_elements : List Column
  pub set_ : List (Column × Expr)

-- What the repository asks of SQLAlchemy, each in a session of its own: the row under a primary key,
-- and a statement in a transaction. An exception of opening, running or closing is the result's.
pub record Session (W : Type 0) : Type 0 where
  pub scalar : Text → W → Result (Option Row) × W
  pub execute : Statement → W → Result (Unit {0}) × W
