-- ===== src/Domain/Errors/Laws.antt =====
-- What a client can tell from the code of an error.
use arvan_ip_country_api.Prelude.{
  String, ◌≡◌, refl, ap, Option, none, some, arith, name_eq, if◌then◌else◌,
}
use arvan_ip_country_api.Domain.Errors.{AppError, code}

-- The error that a client reads off a code.
abbrev of_code : String → Option AppError
of_code c =
    if name_eq c "INTERNAL_ERROR"
    then some AppError.app_error
    else if name_eq c "INVALID_IP"
    then some AppError.invalid_ip
    else if name_eq c "NON_PUBLIC_IP"
    then some AppError.non_public_ip
    else if name_eq c "DATABASE_UNAVAILABLE"
    then some AppError.database_unavailable
    else if name_eq c "DATABASE_SCHEMA_UNAVAILABLE"
    then some AppError.database_schema_unavailable
    else if name_eq c "PROVIDER_TIMEOUT"
    then some AppError.provider_timeout
    else if name_eq c "PROVIDER_AUTHENTICATION_FAILED"
    then some AppError.provider_authentication
    else if name_eq c "PROVIDER_RATE_LIMITED"
    then some AppError.provider_rate_limited
    else if name_eq c "PROVIDER_INVALID_RESPONSE"
    then some AppError.provider_invalid_response
    else if name_eq c "PROVIDER_UNAVAILABLE"
    then some AppError.provider_unavailable
    else none

of_code-code : (e : AppError) → of_code (code e) ≡ some e
unfolding code
of_code-code AppError.app_error = refl
of_code-code _ = refl

-- No two error classes share a code.
pub code-injective : (e f : AppError) → code e ≡ code f → e ≡ f
code-injective e f h = ground (arith, of_code-code e, of_code-code f, ap of_code h)
