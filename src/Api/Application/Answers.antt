-- ===== src/Api/Application/Answers.antt =====
-- What a client of the lookup route gets.
use arvan_ip_country_api.Prelude.{
  ℕ, String, ◌≡◌, refl, true, false, Option, none, some, any, ◌==◌, Bool-cases, inl, inr,
}
use arvan_ip_country_api.Text.{Text}
use arvan_ip_country_api.Domain.Errors.{status_code, code, message}
use arvan_ip_country_api.Domain.IpValidation.{IpLibrary}
use arvan_ip_country_api.Domain.Models.{LookupRequest, LookupResponse, LookupResult}
use arvan_ip_country_api.Effects.{
  Exception, Result, ok, raised, app, is_exception, State, Clock, reach,
}
use arvan_ip_country_api.Service.{IpLookupService, lookup}
use arvan_ip_country_api.Service.Statuses.{
  Documented, raised-Documented, is_documented, documented_statuses, IsDocumented,
  lookup-Documented,
}
use arvan_ip_country_api.Api.{
  lookup_response, envelope, app_error_handler, validation_error_handler, unexpected_error_handler,
}
use arvan_ip_country_api.Api.Context.{request_id_or_new, unknown}
use arvan_ip_country_api.Api.Lookups.{create_lookup}
use arvan_ip_country_api.Api.Application.{
  Request, Tagged, request_observability, finish, answer, outermost, lookup_route, serve_lookup,
}

-- A country with status 200, an error with a documented status, or an unexpected error with status 500.
-- The first two carry the request's id in the header, and an error has it in its body too; the last
-- one has no header and no id.
pub data Answer (rid : Text) : Tagged → Type 0 where
  found :
      (r : LookupResponse)
      → Answer rid (record {
        response = record { status_code = 200; content = lookup_response r };
        x_request_id = some rid;
      })
  failed :
      (status : ℕ) (c m : String)
      → any (λ s. s == status) documented_statuses ≡ true
      → Answer rid (record {
        response = record { status_code = status; content = envelope rid c m };
        x_request_id = some rid;
      })
  broken :
      (c m : String)
      → Answer rid (record {
        response = record { status_code = 500; content = envelope unknown c m };
        x_request_id = none;
      })

-- A response, or an exception such as a cancellation that no handler is for.
abbrev pub Answered : Text → Result Tagged → Type 0
Answered rid (ok r) = Answer rid r
Answered rid (raised e) = is_exception e ≡ false

module _ {A W : Type 0} (lib : IpLibrary A) (platform : Clock W) (uuid4 : W → Text × W)
    (service : IpLookupService A W) where
  -- The id of a request.
  abbrev pub id_of : Request → State W → Text
  id_of request s = (request_id_or_new uuid4 request.x_request_id s.world).0

  raised-Answered :
      (rid : Text) (e : Exception) (s : State W) → Answered rid (outermost (raised e) s).0
  unfolding unexpected_error_handler
  raised-Answered rid e s = elim (Bool-cases (is_exception e)) [
    | inl y ↦ rw y (broken "INTERNAL_ERROR" "An unexpected error occurred.")
    | inr y ↦ rw y y
  ]

  answer-Answered :
      (request : Request) (rid : Text) (started : ℕ) (r : Result LookupResponse) (s : State W)
      → Documented r
      → Answered rid
          (outermost
            (finish platform uuid4 request rid started (answer rid r s).0 (answer rid r s).1).0
            (finish platform uuid4 request rid started (answer rid r s).0 (answer rid r s).1).1).0
  unfolding app_error_handler is_documented
  answer-Answered request rid started (ok r) s d = found r
  answer-Answered request rid started (raised (app e)) s d =
      failed (status_code e) (code e) (message e) d
  answer-Answered request rid started (raised e) s d = raised-Answered rid e s

  -- `create_lookup` raises what `lookup` raises.
  create_lookup-Documented :
      (payload : LookupRequest) (s : State W)
      → Documented (lookup lib platform service payload.ip s).0
      → Documented (create_lookup lib platform service payload s).0
  unfolding create_lookup
  create_lookup-Documented payload s d = go (lookup lib platform service payload.ip s) refl d
    where
      go :
          (o : Result (LookupResult A) × State W)
          → lookup lib platform service payload.ip s ≡ o
          → Documented o.0
          → Documented (create_lookup lib platform service payload s).0
      go (ok r, t) h d = rw h tt
      go (raised e, t) h d = rw h (raised-Documented (LookupResult A) LookupResponse e d)

  module _ (documented : IsDocumented lib platform service) where
    -- If the repository and the provider raise documented errors only, every request for a lookup is
    -- answered with a country and status 200, with an error of a status that the route documents, or
    -- with an unexpected error and status 500, unless an exception that is no `Exception` is raised
    -- on. The first two carry the client's request id if it is well-formed, or else a new one, in
    -- the header, and an error has the same id in its body; an unexpected error has no header and
    -- the id `unknown`.
    pub serve_lookup-Answered :
        (request : Request) (body : Option LookupRequest) (s : State W)
        → Answered (id_of request s) (serve_lookup lib platform uuid4 service request body s).0
    unfolding serve_lookup request_observability lookup_route
    serve_lookup-Answered request none s =
        unfold validation_error_handler in
        failed 422 "INVALID_IP" "The request must contain one valid IP address." refl
    serve_lookup-Answered request (some payload) s =
        let w = (request_id_or_new uuid4 request.x_request_id s.world).1 in
        let u = reach (platform.perf_counter w).1 s in
        answer-Answered request (id_of request s) (platform.perf_counter w).0
          (create_lookup lib platform service payload u).0
          (create_lookup lib platform service payload u).1
          (create_lookup-Documented payload u
            (lookup-Documented lib platform service documented payload.ip u))
