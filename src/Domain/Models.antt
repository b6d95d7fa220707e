-- ===== src/Domain/Models.antt =====
-- domain/models.py. `A` is the type of addresses, `IPv4Address | IPv6Address`.
use arvan_ip_country_api.Text.{Text}
use arvan_ip_country_api.Domain.Datetime.{Datetime}
use arvan_ip_country_api.Prelude.{String, Bool, ◌&&◌, leb, length}

pub record GeoIpResult : Type 0 where
  pub country_code : Text
  pub country_name : Text
  pub provider : Text

pub record CacheRecord (A : Type 0) : Type 0 where
  pub ip : A
  pub country_code : Text
  pub country_name : Text
  pub provider : Text
  pub fetched_at : Datetime
  pub expires_at : Datetime

pub data Source : Type 0 where
  database provider : Source

pub record LookupResult (A : Type 0) : Type 0 where
  pub ip : A
  pub country_code : Text
  pub country_name : Text
  pub source : Source
  pub fetched_at : Datetime
  pub expires_at : Datetime

-- A body that pydantic has read; `ip` has passed the field's bounds.
pub record LookupRequest : Type 0 where
  pub ip : Text

-- `Field(min_length=2, max_length=45)`
unfoldable pub accepts_ip : Text → Bool
accepts_ip s = leb 2 (length s) && leb (length s) 45

pub record LookupResponse : Type 0 where
  pub ip : Text
  pub country_code : Text
  pub country_name : Text
  pub source : Source
  pub fetched_at : Datetime
  pub expires_at : Datetime

pub record ErrorDetail : Type 0 where
  pub code : String
  pub message : String
  pub request_id : Text

pub record ErrorResponse : Type 0 where
  pub error : ErrorDetail
