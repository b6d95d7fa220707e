-- ===== src/Lifespan/Running.antt =====
-- The lifespan of the application, from its start to its end: `lifespan` of lifespan.py around the body that
-- serves the requests. httpx's client and SQLAlchemy's engine are parameters.
pub mod Release
use arvan_ip_country_api.Prelude.{[]}
use arvan_ip_country_api.Config.{Settings, public_summary}
use arvan_ip_country_api.Observability.Metrics.{new_metrics}
use arvan_ip_country_api.Effects.{
  Exec, Result, ok, raised, other, State, LogEvent, write, record_step, ◌>>◌,
}
use arvan_ip_country_api.Lifespan.{Choice, fake_provider, runtime_error, choose_provider}

-- `client.aclose()` and `engine.dispose()`
pub record Resources (W : Type 0) : Type 0 where
  pub aclose : Exec W (Unit {0})
  pub dispose : Exec W (Unit {0})

abbrev pub starting : Settings → LogEvent
unfolding public_summary
starting settings = record {
  level = "info";
  event = "application_starting";
  fields = public_summary settings;
}

abbrev pub stopped : LogEvent
stopped = record { level = "info"; event = "application_stopped"; fields = [] }

-- The application's state before anything has happened in the world.
unfoldable pub fresh : {W : Type 0} → Settings → W → State W
unfolding new_metrics
fresh settings w = record {
  world = w;
  calls = [];
  metrics = new_metrics settings.app_version settings.metrics_enabled;
  log = [];
}

module _ {W : Type 0} (resources : Resources W) where
  -- `if client is not None: await client.aclose()`
  abbrev pub close_client : Choice → Exec W (Unit {0})
  close_client fake_provider s = (ok tt, s)
  close_client _ s = resources.aclose s

  -- The `finally` block.
  abbrev pub shutdown : Choice → Exec W (Unit {0})
  shutdown choice = do close_client choice; resources.dispose; record_step (write stopped)

  -- What the `finally` block raises replaces what the body has raised.
  abbrev pub and_then : Choice → Result (Unit {0}) → Exec W (Unit {0})
  and_then choice r = shutdown choice >> (λ s. (r, s))

  abbrev pub serve : Choice → Settings → Exec W (Unit {0}) → Exec W (Unit {0})
  serve runtime_error settings body s = (raised other, s)
  serve choice settings body s =
      let (r, t) = body (write (starting settings) s) in and_then choice r t

  -- `lifespan`
  unfoldable pub lifespan : Settings → Exec W (Unit {0}) → W → Result (Unit {0}) × State W
  unfolding choose_provider fresh
  lifespan settings body w = serve (choose_provider settings) settings body (fresh settings w)
