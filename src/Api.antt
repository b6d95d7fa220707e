-- ===== src/Api.antt =====
-- api/ and main.py: the routes, the error handlers and the middleware around them. FastAPI reads bodies
-- and picks the route and the handler; a request is what it has picked.
pub mod Context
pub mod Health
pub mod Lookups
pub mod Application
use arvan_ip_country_api.Prelude.{ℕ, String, List, [], ◌∷◌}
use arvan_ip_country_api.Text.{Text}
use arvan_ip_country_api.Domain.Errors.{AppError, code, message, status_code}
use arvan_ip_country_api.Domain.Models.{LookupResponse, ErrorResponse}
use arvan_ip_country_api.Effects.{State, write, word}

-- The bodies that the routes and handlers answer with.
pub data Content : Type 0 where
  lookup_response : LookupResponse → Content
  error_response : ErrorResponse → Content
  health : List (String × String) → Content

pub record Response : Type 0 where
  pub status_code : ℕ
  pub content : Content

-- `_envelope(code, message)`; the request id is what the context variable holds.
unfoldable pub envelope : Text → String → String → Content
envelope request_id c m =
    error_response (record { error = record { code = c; message = m; request_id = request_id } })

module _ {W : Type 0} (request_id : Text) where
  unfoldable pub app_error_handler : AppError → State W → Response × State W
  app_error_handler e s = (
    record { status_code = status_code e; content = envelope request_id (code e) (message e) },
    write
        (record {
          level = "warning";
          event = "request_failed";
          fields = ("error_type", word (code e)) ∷ [];
        })
        s,
  )

  unfoldable pub validation_error_handler : State W → Response × State W
  validation_error_handler s = (
    record {
      status_code = 422;
      content = envelope request_id "INVALID_IP" "The request must contain one valid IP address.";
    },
    s,
  )

  unfoldable pub unexpected_error_handler : State W → Response × State W
  unexpected_error_handler s = (
    record {
      status_code = 500;
      content = envelope request_id "INTERNAL_ERROR" "An unexpected error occurred.";
    },
    write
        (record {
          level = "error";
          event = "unexpected_request_failure";
          fields = ("error_type", word "INTERNAL_ERROR") ∷ [];
        })
        s,
  )
