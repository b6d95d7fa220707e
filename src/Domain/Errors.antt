-- ===== src/Domain/Errors.antt =====
-- domain/errors.py: the exceptions that the service raises on purpose, with their class attributes.
pub mod Laws
use arvan_ip_country_api.Prelude.{ℕ, String}

-- One constructor for each class; `app_error` is the base class itself.
pub data AppError : Type 0 where
  app_error invalid_ip non_public_ip database_unavailable database_schema_unavailable : AppError
  provider_timeout provider_authentication provider_rate_limited : AppError
  provider_invalid_response provider_unavailable : AppError

unfoldable pub code : AppError → String
code app_error = "INTERNAL_ERROR"
code invalid_ip = "INVALID_IP"
code non_public_ip = "NON_PUBLIC_IP"
code database_unavailable = "DATABASE_UNAVAILABLE"
code database_schema_unavailable = "DATABASE_SCHEMA_UNAVAILABLE"
code provider_timeout = "PROVIDER_TIMEOUT"
code provider_authentication = "PROVIDER_AUTHENTICATION_FAILED"
code provider_rate_limited = "PROVIDER_RATE_LIMITED"
code provider_invalid_response = "PROVIDER_INVALID_RESPONSE"
code provider_unavailable = "PROVIDER_UNAVAILABLE"

unfoldable pub message : AppError → String
message app_error = "An unexpected error occurred."
message invalid_ip = "The supplied value is not a valid IP address."
message non_public_ip = "Country lookup is supported only for public IP addresses."
message database_unavailable = "The database is temporarily unavailable."
message database_schema_unavailable = "The required database schema is unavailable."
message provider_timeout = "The country provider timed out."
message provider_authentication = "The country provider rejected authentication."
message provider_rate_limited = "The country provider rate limit was reached."
message provider_invalid_response = "The country provider returned an unusable response."
message provider_unavailable = "The country provider is temporarily unavailable."

unfoldable pub status_code : AppError → ℕ
status_code app_error = 500
status_code invalid_ip = 422
status_code non_public_ip = 422
status_code database_unavailable = 503
status_code database_schema_unavailable = 503
status_code provider_timeout = 504
status_code provider_authentication = 503
status_code provider_rate_limited = 503
status_code provider_invalid_response = 502
status_code provider_unavailable = 503
