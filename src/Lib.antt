-- ===== src/Lib.antt =====
-- IP Country API: an HTTP service that tells the country of a public IP address, and keeps the answers of
-- an upstream provider in PostgreSQL for a while.
--
-- A request passes the middleware (main.py) and reaches the lookup route (api/lookups.py), which asks the
-- service (services/ip_lookup_service.py). The service validates the address (domain/ip_validation.py),
-- reads the repository (repositories/ip_lookup_repository.py), and on a miss or an expired record asks the
-- provider (providers/) and stores the answer. Errors are exceptions with a code and a status
-- (domain/errors.py), which the handlers (api/errors.py) turn into responses. Every part records metrics
-- (observability/metrics.py). The settings (config.py) are checked at the start. Paths are from
-- src/ip_country_api/ unless they name another folder of the repository.
--
-- Files:
--   Prelude, Text, Json: shared names and lemmas; Python's `str` as a list of code points, with the methods
--     used; decoded JSON.
--   Effects: methods as functions of a state (world, calls made, metrics, log) that return or raise.
--   Domain: domain/; `validate_public_ip`, the errors, the records, and Python's `datetime`.
--   Observability: `ApplicationMetrics`, as the list of samples recorded; the logging processors.
--   Config: `Settings`, its bounds, validators and summary. Floats are whole numbers of nanoseconds.
--   Database: the table's rows, the statements, the engine's URL, and migrations/env.py's URL; Migrations is
--     the table of database/models.py and the migration in migrations/versions/.
--   Repository: `PostgreSQLLookupRepository.get` and `upsert`; Refinement and Writes relate the table to a
--     finite map; Interface is what the service's theorems ask of a repository, and Cache fills it.
--   Providers: `FakeGeoIPProvider` and `IPinfoLiteProvider` with requests, retries and payloads.
--   Service: `IPLookupService.lookup`; Caching, Statuses, Counting and Assembly hold its theorems.
--     Concurrency is a step relation for lookups of one address that run at the same time: a read and a commit
--     are steps apart from the task's, which may fail or be cancelled before and after them.
--   Lifespan: the provider that lifespan.py starts the service with, and the lifespan around the serving.
--   Api: the handlers, request ids, the lookup and health routes, and the middleware.
--   Dashboards: deploy/scripts/build-sre-dashboards.py; panels, `Layout.row`, the four dashboards, and Pack
--     with `main`, which writes two of them or compares them with their files.
--   Traffic: deploy/scripts/generate-observability-traffic.py; requests, results, percentiles, summary.
--   Verifier: deploy/scripts/verify-sre-dashboards.py; panels, expressions, checks, summary, exit code.
--   Recovery: deploy/scripts/verify-pod-recovery.py; inventory, loop, counters, report, `main`.
--   Tests: a small platform, and the theorems at concrete data.
--
-- What is not under src/ is a parameter: Python's ipaddress (`IpLibrary`), the clocks (`Clock`), httpx
-- (`HttpClient`), tenacity (`Retrying`), SQLAlchemy sessions over PostgreSQL (`Session`), uuid4, and
-- Python's Unicode tables (`UnicodeTables`). What the code relies on in them are records of laws
-- (`IsIpLibrary`, `IsClock`, `IsHttpClient`, `IsRetrying`, `IsPostgres`, `IsForeign`,
-- `IsCluster`, `IsReleasing`, `IsUnicode`). PostgreSQL is relied on for texts without NUL and surrogates, for
-- addresses that its INET takes, and for times that no zone moves out of the range of `datetime`. A call of a parameter may
-- change the world in any way, so other tasks may act between the calls of one request.
--
-- Each loop is structural, over the retries, the rows, the panels or the replies, but for the loop of
-- verify-pod-recovery.py, which runs while the clock has not reached a timeout: it gets `timeout / 500 + 2`
-- rounds, and a round takes at least the 500 milliseconds that it sleeps. A reading of `perf_counter` is a
-- number of ticks that never decreases. A quantile of the traffic is a number of hundredths.
--
-- The replies to the requests of the two scripts that send some are given, with the exceptions that the scripts do
-- not catch (`uncaught`): one ends a run of the traffic, and the requests of the recovery check.
--
-- Not modelled: the setup of logging, the web page, routing, trusted hosts and CORS, the text format of the
-- metrics, the command lines of the scripts but for the traffic's bounds, the traffic's groups by category,
-- status and URL, the shell scripts, the Helm charts and the page's JavaScript.
pub mod Prelude
pub mod Text
pub mod Json
pub mod Domain
pub mod Observability
pub mod Effects
pub mod Config
pub mod Database
pub mod Repository
pub mod Providers
pub mod Service
pub mod Lifespan
pub mod Api
pub mod Dashboards
pub mod Traffic
pub mod Recovery
pub mod Verifier
pub mod Tests
