-- ===== src/Tests/Concurrency.antt =====
-- The theorems on counted and on concurrent lookups at concrete inputs.
use arvan_ip_country_api.Prelude.{◌≡◌, refl, Option, none, some, [], ◌∷◌, replicate}
use arvan_ip_country_api.Text.{codes}
use arvan_ip_country_api.Domain.Datetime.{Datetime, add_seconds}
use arvan_ip_country_api.Domain.Models.{CacheRecord, LookupResult}
use arvan_ip_country_api.Effects.{ok}
use arvan_ip_country_api.Service.{lookup, new_result}
use arvan_ip_country_api.Service.Counting.{Counted, counted}
use arvan_ip_country_api.Service.Counting.Assembly.{ipinfo_lookup-Counted}
use arvan_ip_country_api.Service.Concurrency.{
  Phase, waiting, seen, failed, answered, record_of, Act, read, miss, answer as act_answer, commit,
  finish, abandon, late_commit, System, Step, step, Reach, here, next,
}
use arvan_ip_country_api.Service.Concurrency.Agreement.{
  Only, IsSettled, concurrent_lookups-IsSettled,
}
use arvan_ip_country_api.Service.Concurrency.Path.{MayAnswer, alone, refreshed, lookup-Reach}
use arvan_ip_country_api.Tests.Platform.{
  Address, google, addresses, clock, session, at, later, fresh,
}
use arvan_ip_country_api.Tests.Servers.{ascii, retrying, ipinfo, client_law, retrying_law}
use arvan_ip_country_api.Tests.Witnesses.{
  service, cache, quiet, valid_google, answer, no_rows, empty-Holds, accepts, blank_google, expiry,
  fake_answers, expires, storable, ipinfo_cache,
}

ipinfo_lookup-Counted_example :
    Counted
      (counted (fresh 3).metrics.samples)
      (lookup addresses clock ipinfo_cache (codes "1.1.1.1") (fresh 3)).0
      (lookup addresses clock ipinfo_cache (codes "1.1.1.1") (fresh 3)).1.metrics
ipinfo_lookup-Counted_example =
    ipinfo_lookup-Counted addresses session clock ascii retrying ipinfo client_law retrying_law
      86400 (codes "1.1.1.1") (fresh 3) refl

abbrev moment : Datetime
moment = at (later (fresh 0).world)

moment_expires : add_seconds moment 86400 ≡ some expiry
unfolding add_seconds
moment_expires = refl

abbrev first_record : CacheRecord Address
first_record = record_of google answer moment expiry

abbrev OneAnswer : Type 0
OneAnswer = System google 86400 (Only google 86400 answer)

abbrev two : Option (CacheRecord Address) → Phase Address → Phase Address → OneAnswer
two cell p q = record { cell = cell; tasks = p ∷ q ∷ [] }

-- Two tasks that both miss; the first fails while its write is on the way, which is committed all the same, and
-- the second writes again and answers.
abbrev raced : OneAnswer
raced = two (some first_record) failed (answered (new_result google first_record))

race :
    Reach google 86400
      (Only google 86400 answer)
      (record { cell = none; tasks = replicate 2 waiting })
      raced
race =
    next
      (next
        (next
          (next
            (next
              (next
                (next
                  (next
                    (next {t = two none (seen none) waiting}
                      (next here (first (read refl refl refl))) (second (read refl refl refl)))
                    (first (miss moment none refl tt refl refl)))
                  (second (miss moment none refl tt refl refl)))
                (first (act_answer answer moment expiry refl refl moment_expires refl refl)))
              (first (abandon first_record refl refl refl)))
            (second (act_answer answer moment expiry refl refl moment_expires refl refl)))
          (first (late_commit first_record refl refl refl)))
        (second (commit first_record refl refl refl)))
      (second (finish first_record refl refl refl))
  where
    first :
        {cell cell' : Option (CacheRecord Address)} {p p' q : Phase Address}
        → Act google 86400 (Only google 86400 answer) cell p cell' p'
        → Step google 86400 (Only google 86400 answer) (two cell p q) (two cell' p' q)
    first {p = p} {p' = p'} {q = q} a = step [] (q ∷ []) p p' refl a refl

    second :
        {cell cell' : Option (CacheRecord Address)} {p q q' : Phase Address}
        → Act google 86400 (Only google 86400 answer) cell q cell' q'
        → Step google 86400 (Only google 86400 answer) (two cell p q) (two cell' p q')
    second {p = p} {q = q} {q' = q'} a = step (p ∷ []) [] q q' refl a refl

concurrent_lookups-IsSettled_example : IsSettled google 86400 answer raced
concurrent_lookups-IsSettled_example = concurrent_lookups-IsSettled google 86400 answer 2 raced race

lookup-Reach_example :
    (m : Address → Option (CacheRecord Address)) × (result : LookupResult Address) × ((lookup
        addresses clock service blank_google
        (fresh 0)).0
      ≡ ok result)
    × cache.Holds (lookup addresses clock service blank_google (fresh 0)).1.world m
    × Reach google 86400
        (MayAnswer addresses clock service cache quiet blank_google google valid_google)
        (alone addresses clock service cache quiet blank_google google valid_google none waiting)
        (alone addresses clock service cache quiet blank_google google valid_google
          (m google)
          (answered result))
lookup-Reach_example =
    lookup-Reach addresses clock service cache quiet blank_google google valid_google no_rows
      (fresh 0) empty-Holds (accepts google)
      (refreshed answer expiry tt fake_answers expires storable)
