-- ===== src/Tests/Servers.antt =====
-- IPinfo behind a server that fails a number of times, tenacity's loop, and ASCII's tables.
use arvan_ip_country_api.Prelude.{
  ℕ, zero, suc, ◌+◌, ◌≡◌, Bool, true, false, ◌&&◌, some, arith, if◌then◌else◌, map, leb, ◌||◌, ◌-◌,
}
use arvan_ip_country_api.Text.{codes, UnicodeTables}
use arvan_ip_country_api.Effects.{Exception, Exec, Result, ok, raised, httpx_timeout, State}
use arvan_ip_country_api.Providers.Ipinfo.{HttpClient, Response, Retrying, IpinfoLiteProvider}
use arvan_ip_country_api.Json.{Json, Fields}
use arvan_ip_country_api.Providers.Ipinfo.Retries.{IsRetrying, retry_loop}
use arvan_ip_country_api.Providers.Ipinfo.Requests.{IsHttpClient, is_foreign}
use arvan_ip_country_api.Tests.Platform.{World, later}

-- IPinfo: the first requests time out, as often as the world says.
abbrev pub payload : Json
payload = Json.object (
    Fields.field (codes "country_code") (Json.text (codes "US"))
      (Fields.field (codes "country") (Json.text (codes " United States ")) Fields.end))

abbrev pub respond : ℕ → World → Result Response × World
respond zero w = (ok (record { status_code = 200; json = some payload }), w)
respond (suc n) w = (raised httpx_timeout, record w { failures = n })

abbrev pub client : HttpClient World
client = record { get = λ path headers w. respond w.failures w }

respond-foreign :
    (n : ℕ) (w : World) {e : Exception} → (respond n w).0 ≡ raised e → is_foreign e ≡ true
unfolding is_foreign
respond-foreign zero w h = cc
respond-foreign (suc n) w h = ground arith

pub client_law : IsHttpClient client
client_law = record { foreign = λ path headers w h. respond-foreign w.failures w h }

abbrev pub attempts : ℕ → (Exception → Bool) → Exec World Response → Exec World Response
attempts zero retries m s = m s
attempts (suc n) retries m s = retry_loop (λ k. later) retries n m s

abbrev pub retrying : Retrying World
retrying = record { run = attempts; pause = λ k. later }

pub retrying_law : IsRetrying retrying
unfolding retry_loop
retrying_law = record {
  returns = returns;
  gives_up = gives_up;
  stops = λ retries m s h. h;
  repeats = λ n retries m s h y. rw (h, y);
}
  where
    returns :
        (n : ℕ) (retries : Exception → Bool) (m : Exec World Response) (s : State World)
        {a : Response} {t : State World}
        → m s ≡ (ok a, t)
        → attempts (suc n) retries m s ≡ (ok a, t)
    returns zero retries m s h = h
    returns (suc n) retries m s h = rw h

    gives_up :
        (n : ℕ) (retries : Exception → Bool) (m : Exec World Response) (s : State World)
        {e : Exception} {t : State World}
        → m s ≡ (raised e, t)
        → retries e ≡ false
        → attempts (suc n) retries m s ≡ (raised e, t)
    gives_up zero retries m s h y = h
    gives_up (suc n) retries m s h y = rw (h, y)

-- ASCII texts.
abbrev pub ascii : UnicodeTables
ascii = record {
  lower = map (λ c. if leb b'A' c && leb c b'Z' then c + 32 else c);
  upper = map (λ c. if leb b'a' c && leb c b'z' then c - 32 else c);
  is_alpha_char = λ c. (leb b'A' c && leb c b'Z') || (leb b'a' c && leb c b'z');
}

abbrev pub ipinfo : IpinfoLiteProvider World
ipinfo = record { client = client; token = codes "token"; max_retries = 2 }
