-- ===== src/Effects.antt =====
-- Methods that call the outside world and may raise. A method is a function of the state that it
-- finds; what it did before a raise stays done, so the state comes back beside the exception.
-- `W` is the outside world: the database, the provider's server, the clocks and all other tasks.
-- The components that reach it (`Clock`, `Session`, `HttpClient`) are functions of `W`, so that a
-- world may change in any way whenever it is called.
use arvan_ip_country_api.Prelude.{ℕ, ◌-◌, String, Bool, true, false, Option, List, [], ◌∷◌, ◌++◌}
use arvan_ip_country_api.Text.{Text}
use arvan_ip_country_api.Config.Integers.{ℤ}
use arvan_ip_country_api.Domain.Errors.{AppError}
use arvan_ip_country_api.Domain.Datetime.{Datetime}
use arvan_ip_country_api.Observability.Metrics.{ApplicationMetrics}

-- The exceptions that the program tells apart. `retryable_error` and `retryable_timeout` are the
-- private classes of providers/ipinfo.py, `value_error` is ValueError with its subclasses (pydantic's
-- ValidationError and JSON's decoding error), `sql_error` is SQLAlchemy's DBAPIError or SQLAlchemyError
-- with the sqlstate of its driver's exception, `httpx_timeout` is httpx's TimeoutException and
-- `httpx_request_error` any other RequestError than that and DecodingError, `cancelled` is asyncio.CancelledError, which is no
-- `Exception`, and `other` is any other one.
pub data Exception : Type 0 where
  app : AppError → Exception
  retryable_error retryable_timeout value_error type_error overflow_error : Exception
  httpx_timeout httpx_request_error httpx_decoding_error : Exception
  timeout_error operational_error other cancelled : Exception
  sql_error : Option String → Exception

-- What `except Exception` catches.
unfoldable pub is_exception : Exception → Bool
is_exception cancelled = false
is_exception _ = true

pub data Result {ℓ} (R : Type ℓ) : Type ℓ where
  ok : R → Result R
  raised : Exception → Result R

-- The calls that leave the process, in order: the two statements of the repository by the address
-- that they are about, and the provider's requests by their path.
pub data Call : Type 0 where
  select insert http_get : Text → Call

pub data LogValue : Type 0 where
  word : String → LogValue
  text : Text → LogValue
  number : ℕ → LogValue
  integer : ℤ → LogValue
  boolean : Bool → LogValue

pub record LogEvent : Type 0 where
  pub level : String
  pub event : String
  pub fields : List (String × LogValue)

pub record State (W : Type 0) : Type 0 where
  pub world : W
  pub calls : List Call
  pub metrics : ApplicationMetrics
  pub log : List LogEvent

abbrev pub Exec : Type 0 → Type 0 → Type 0
Exec W R = State W → Result R × State W

module _ {W : Type 0} where
  -- Recorded metrics, a log line, and a call of the world.
  abbrev pub count : (ApplicationMetrics → ApplicationMetrics) → State W → State W
  count f s = record s { metrics = f s.metrics }

  abbrev pub write : LogEvent → State W → State W
  write e s = record s { log = s.log ++ e ∷ [] }

  abbrev pub reach : W → State W → State W
  reach w s = record s { world = w }

  abbrev pub note : Call → State W → State W
  note c s = record s { calls = s.calls ++ c ∷ [] }

  module _ {R : Type 0} where
    abbrev pub pure : R → Exec W R
    pure a s = (ok a, s)

    abbrev pub throw : Exception → Exec W R
    throw e s = (raised e, s)

    -- A method that cannot raise.
    abbrev pub lift : (State W → R × State W) → Exec W R
    lift f s = let (a, s') = f s in (ok a, s')

    -- `finally:` over a body that cannot raise.
    abbrev pub finally : Exec W R → (State W → State W) → Exec W R
    finally m f s = let (r, s') = m s in (r, f s')

    abbrev pub handle : (Exception → Exec W R) → Result R → Exec W R
    handle h (ok a) s = (ok a, s)
    handle h (raised e) s = h e s

    -- `try: m except ...: h`, where `h` raises again what it does not catch.
    abbrev pub catch : Exec W R → (Exception → Exec W R) → Exec W R
    catch m h s = let (r, s') = m s in handle h r s'

  module _ {R S : Type 0} where
    abbrev pub continue : (R → Exec W S) → Result R → Exec W S
    continue f (ok a) s = f a s
    continue f (raised e) s = (raised e, s)

    infixl 10 ◌>>=◌ ◌>>◌
    abbrev pub ◌>>=◌ : Exec W R → (R → Exec W S) → Exec W S
    ◌>>=◌ m f s = let (r, s') = m s in continue f r s'

    abbrev pub ◌>>◌ : Exec W R → Exec W S → Exec W S
    m >> n = m >>= λ _. n

  -- A step that only records.
  abbrev pub record_step : (State W → State W) → Exec W (Unit {0})
  record_step f s = (ok tt, f s)

-- `perf_counter()` and `datetime.now(UTC)`. A reading of the counter is a number of ticks.
pub record Clock (W : Type 0) : Type 0 where
  pub perf_counter : W → ℕ × W
  pub now : W → Datetime × W

module _ {W : Type 0} (clock : Clock W) where
  -- `perf_counter()`
  abbrev pub read_counter : Exec W ℕ
  read_counter s = let (t, w) = clock.perf_counter s.world in (ok t, reach w s)

  -- `datetime.now(UTC)`
  abbrev pub utc_now : Exec W Datetime
  utc_now s = let (d, w) = clock.now s.world in (ok d, reach w s)

  -- `perf_counter() - started`, recorded by `f`; the counter never runs backwards.
  abbrev pub count_elapsed : (ℕ → ApplicationMetrics → ApplicationMetrics) → ℕ → State W → State W
  count_elapsed f started s =
      let (t, w) = clock.perf_counter s.world in count (f (t - started)) (reach w s)
