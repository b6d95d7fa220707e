-- ===== src/Database/Migrations.antt =====
-- The table of database/models.py and the migration that creates it,
-- migrations/versions/20260714_0001_create_ip_lookup_cache.py. Alembic is not modelled: a migration is the
-- list of the operations that it asks for.
pub mod Columns
use arvan_ip_country_api.Prelude.{
  ℕ, String, Bool, true, false, ◌&&◌, Option, none, some, List, [], ◌∷◌, all, leb, length,
}
use arvan_ip_country_api.Text.{Text}
use arvan_ip_country_api.Database.{
  Row, Column, ip_address, country_code, country_name, provider, fetched_at, expires_at, created_at,
  updated_at,
}
use arvan_ip_country_api.Database.Postgres.{is_storable, Value, text, time, get_column}

-- `INET`, `String(n)` and `DateTime(timezone=True)`
pub data ColumnType : Type 0 where
  inet : ColumnType
  string : ℕ → ColumnType
  timestamptz : ColumnType

pub record ColumnDef : Type 0 where
  pub name : Column
  pub type : ColumnType
  pub nullable : Bool
  pub server_default : Option String

pub record Table : Type 0 where
  pub name : String
  pub columns : List ColumnDef
  pub primary_key : List Column

pub record Index : Type 0 where
  pub name : String
  pub table : String
  pub columns : List Column

abbrev column : Column → ColumnType → ColumnDef
column name type = record { name = name; type = type; nullable = false; server_default = none }

abbrev now_column : Column → ColumnDef
now_column name = record (column name timestamptz) { server_default = some "now()" }

-- `IPLookupCache.__table__` and its index
abbrev pub model_table : Table
model_table = record {
  name = "ip_lookup_cache";
  columns =
      column ip_address inet
      ∷ column country_code (string 2)
      ∷ column country_name (string 128)
      ∷ column provider (string 32)
      ∷ column fetched_at timestamptz
      ∷ column expires_at timestamptz
      ∷ now_column created_at
      ∷ now_column updated_at
      ∷ [];
  primary_key = ip_address ∷ [];
}

abbrev pub model_index : Index
model_index = record {
  name = "ix_ip_lookup_cache_expires_at";
  table = "ip_lookup_cache";
  columns = expires_at ∷ [];
}

pub data Operation : Type 0 where
  create_table : Table → Operation
  create_index : Index → Operation
  drop_index drop_table : String → Operation

unfoldable pub upgrade : List Operation
upgrade =
    create_table (record {
      name = "ip_lookup_cache";
      columns =
          column ip_address inet
          ∷ column country_code (string 2)
          ∷ column country_name (string 128)
          ∷ column provider (string 32)
          ∷ column fetched_at timestamptz
          ∷ column expires_at timestamptz
          ∷ now_column created_at
          ∷ now_column updated_at
          ∷ [];
      primary_key = ip_address ∷ [];
    })
    ∷ create_index (record {
      name = "ix_ip_lookup_cache_expires_at";
      table = "ip_lookup_cache";
      columns = expires_at ∷ [];
    })
    ∷ []

unfoldable pub downgrade : List Operation
downgrade = drop_index "ix_ip_lookup_cache_expires_at" ∷ drop_table "ip_lookup_cache" ∷ []

-- What a column of the type takes; which texts an INET column takes is PostgreSQL's own syntax.
abbrev pub admits : (Text → Bool) → ColumnType → Value → Bool
admits is_inet inet (text v) = is_inet v
admits is_inet (string n) (text v) = leb (length v) n && is_storable v
admits is_inet timestamptz (time d) = true
admits _ _ _ = false

-- Whether a row fits every table that the operations create.
unfoldable pub takes : (Text → Bool) → List Operation → Row → Bool
takes is_inet [] r = true
takes is_inet (create_table t ∷ more) r =
    all (λ c. admits is_inet c.type (get_column c.name r)) t.columns && takes is_inet more r
takes is_inet (_ ∷ more) r = takes is_inet more r
