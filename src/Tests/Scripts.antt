-- ===== src/Tests/Scripts.antt =====
-- The theorems on log events and on generated traffic at concrete inputs.
use mathlib.Core.Option
use arvan_ip_country_api.Prelude.{
  false, none, ℕ, ◌*◌, ◌≡◌, refl, ◌==◌, if◌then◌else◌, some, [], ◌∷◌,
}
use arvan_ip_country_api.Text.{Text, codes, rstrip_slash}
use arvan_ip_country_api.Effects.{word}
use arvan_ip_country_api.Observability.Logging.{EventDict, is_sensitive, redact_secrets}
use arvan_ip_country_api.Observability.Logging.Secrets.{
  get, is_one_of, secret_names, get-redact_secrets,
}
use arvan_ip_country_api.Config.Integers.{pos}
use arvan_ip_country_api.Traffic.Latencies.{Ends, main-Reports}
use arvan_ip_country_api.Traffic.{
  Args, check_args, main, run, report, execute, request_for, crashed, Reply, response, failure,
  uncaught, health,
}
use arvan_ip_country_api.Traffic.Mix.{count_category, share, count_category_lem}
use arvan_ip_country_api.Tests.Servers.{ascii}

abbrev event : EventDict
event = (codes "event", word "login") ∷ (codes "Password", word "hunter2") ∷ []

get-redact_secrets_example :
    get (redact_secrets ascii event) (codes "Password")
    ≡ Option.map
        (λ v.
          if is_one_of (ascii.lower (codes "Password")) secret_names then word "[REDACTED]" else v)
        (get event (codes "Password"))
get-redact_secrets_example = get-redact_secrets ascii event (codes "Password")

-- The password is gone.
hidden : get (redact_secrets ascii event) (codes "Password") ≡ some (word "[REDACTED]")
unfolding redact_secrets is_sensitive
hidden = refl

count_category_lem_example :
    count_category health (100 * 3) (codes "http://localhost") (codes "8.8.8.8") ≡ share health * 3
count_category_lem_example =
    count_category_lem (codes "http://localhost") (codes "8.8.8.8") health 3

-- The second request fails.
abbrev replies : ℕ → ℕ × Reply
replies n = if n == 1 then (7, failure "URLError") else (5, response 200)

abbrev args : Args
args = record {
  base_url = codes "http://localhost:8080/";
  more_urls = [];
  requests = pos 3;
  concurrency = pos 1;
  cached_ip = codes "8.8.8.8";
  timeout = pos 5000000000;
}

abbrev scheme : Text → Text
scheme url = codes "http"

accepts_args : check_args scheme args ≡ none
unfolding check_args
accepts_args = refl

main-Reports_example : Ends args replies false (main scheme args replies)
main-Reports_example = main-Reports scheme args replies accepts_args

-- A base URL with a bad port passes the test of its scheme, and the exception of the first request ends the script.
bad_port : main scheme args (λ n. (1, uncaught "InvalidURL")) ≡ crashed
unfolding main run report execute request_for rstrip_slash check_args
bad_port = refl
