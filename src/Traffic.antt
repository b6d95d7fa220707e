-- ===== src/Traffic.antt =====
-- deploy/scripts/generate-observability-traffic.py: which request is sent for each index, how its reply is
-- judged, and the summary of a run. urllib and the threads are not modelled: a run is given the reply
-- that each index got, and `executor.map` returns the results in the order of the indices. A time is a
-- number of ticks.
pub mod Mix
pub mod Ranks
pub mod Verdict
pub mod Latencies
use arvan_ip_country_api.Prelude.{
  ℕ, zero, suc, ◌+◌, ◌%◌, String, Bool, true, false, not, ◌&&◌, ◌||◌, Option, none, some, List, [],
  ◌∷◌, ◌++◌, any, ltb, leb, ◌==◌, ◌*◌, ◌/◌, ◌-◌, length, map, sort_by, if◌then◌else◌,
}
use arvan_ip_country_api.Config.Integers.{ℤ, in_range, to_ℕ}
use arvan_ip_country_api.Text.{Text, text_eq, codes, rstrip_slash}

pub data Category : Type 0 where
  cached_lookup root health expected_4xx : Category

-- The options of the command line, whose types and number argparse has checked: at least one base URL, and a
-- timeout in nanoseconds.
pub record Args : Type 0 where
  pub base_url : Text
  pub more_urls : List Text
  pub requests : ℤ
  pub concurrency : ℤ
  pub cached_ip : Text
  pub timeout : ℤ

-- What `parser.error` says.
pub data UsageError : Type 0 where
  requests_range concurrency_range timeout_range url_scheme : UsageError

abbrev is_web : Text → Bool
is_web scheme = text_eq scheme (codes "http") || text_eq scheme (codes "https")

-- The end of `parse_args`; `scheme` is `urllib.parse.urlparse(url).scheme`.
unfoldable pub check_args : (Text → Text) → Args → Option UsageError
check_args scheme args =
    if not (in_range 1 10000 args.requests)
    then some requests_range
    else if not (in_range 1 100 args.concurrency)
    then some concurrency_range
    else if not (in_range 1 30000000000 args.timeout)
    then some timeout_range
    else if any (λ url. not (is_web (scheme url))) (args.base_url ∷ args.more_urls)
    then some url_scheme
    else none

-- A request; `body` is the address in the JSON body of a POST.
pub record Request : Type 0 where
  pub url : Text
  pub body : Option Text
  pub category : Category
  pub expected_statuses : List ℕ

abbrev post : Text → Text → Category → List ℕ → Request
post base_url ip category expected = record {
  url = base_url ++ codes "/api/v1/lookups";
  body = some ip;
  category = category;
  expected_statuses = expected;
}

abbrev fetch : Text → Text → Category → Request
fetch base_url path category = record {
  url = base_url ++ path;
  body = none;
  category = category;
  expected_statuses = 200 ∷ [];
}

unfoldable pub request_for : ℕ → Text → Text → Request
request_for index base_url cached_ip =
    let bucket = index % 100 in
    if ltb bucket 85
    then post base_url cached_ip cached_lookup (200 ∷ [])
    else if ltb bucket 95
    then fetch base_url (codes "/") root
    else if ltb bucket 98
    then fetch base_url (if index % 2 == 0 then codes "/health/ready" else codes "/health/live")
        health
    else post base_url (codes "not-an-ip") expected_4xx (400 ∷ 422 ∷ [])

-- What `urlopen` and the reading of its response do: a response, an HTTPError with its code, one of the
-- exceptions that the scripts catch, by name, or one that they do not catch, such as `InvalidURL` or
-- `IncompleteRead`.
pub data Reply : Type 0 where
  response http_error : ℕ → Reply
  failure uncaught : String → Reply

pub record Result : Type 0 where
  pub base_url : Text
  pub category : Category
  pub status : ℕ
  pub latency : ℕ
  pub expected : Bool
  pub error : Option String

-- `none` is an exception that leaves `execute`.
abbrev pub judge : Text → Request → ℕ → Reply → Option Result
judge base_url request latency (response status) = some record {
  base_url = base_url;
  category = request.category;
  status = status;
  latency = latency;
  expected = any (λ s. s == status) request.expected_statuses;
  error = none;
}
judge base_url request latency (http_error code) = some record {
  base_url = base_url;
  category = request.category;
  status = code;
  latency = latency;
  expected = any (λ s. s == code) request.expected_statuses;
  error = none;
}
judge base_url request latency (failure name) = some record {
  base_url = base_url;
  category = request.category;
  status = 0;
  latency = latency;
  expected = false;
  error = some name;
}
judge base_url request latency (uncaught name) = none

-- `base_urls[index % len(base_urls)]`; argparse requires at least one.
abbrev pub get_item : Text → List Text → ℕ → Text
get_item first rest zero = first
get_item first [] (suc i) = first
get_item first (url ∷ rest) (suc i) = get_item url rest i

abbrev pub base_url_for : Text → List Text → ℕ → Text
base_url_for first rest index = get_item first rest (index % suc (length rest))

unfoldable pub execute : ℕ → Text → List Text → Text → (ℕ → ℕ × Reply) → Option Result
unfolding request_for rstrip_slash
execute index first rest cached_ip replies =
    let base_url = rstrip_slash (base_url_for first rest index) in
    let (latency, reply) = replies index in
    judge base_url (request_for index base_url cached_ip) latency reply

abbrev pub add_result : Option (List Result) → Option Result → Option (List Result)
add_result (some results) (some result) = some (results ++ result ∷ [])
add_result _ _ = none

-- `list(executor.map(...))` for `range(n)`: the results, or the exception of one of the calls.
unfoldable pub run : ℕ → Text → List Text → Text → (ℕ → ℕ × Reply) → Option (List Result)
run zero first rest cached_ip replies = some []
run (suc n) first rest cached_ip replies =
    add_result (run n first rest cached_ip replies) (execute n first rest cached_ip replies)

-- `sum(test(item) for item in results)`
unfoldable pub count : (Result → Bool) → List Result → ℕ
count test [] = 0
count test (r ∷ rs) = (if test r then 1 else 0) + count test rs

-- `values[index]`; `none` is the IndexError.
abbrev pub get_elem? {ℓ} : {A : Type ℓ} → List A → ℕ → Option A
get_elem? [] i = none
get_elem? (x ∷ xs) zero = some x
get_elem? (x ∷ xs) (suc i) = get_elem? xs i

-- The quantile is given in hundredths: `math.ceil(quantile * len(ordered))` is the quotient by 100,
-- rounded up, and the subtraction stops at 0 as `max(0, ...)` does.
unfoldable pub percentile : List ℕ → ℕ → Option ℕ
percentile [] quantile = some 0
percentile (value ∷ more) quantile =
    let ordered = sort_by leb (value ∷ more) in
    get_elem? ordered ((quantile * length ordered + 99) / 100 - 1)

abbrev is_expected_4xx : Category → Bool
is_expected_4xx expected_4xx = true
is_expected_4xx _ = false

pub record Summary : Type 0 where
  pub requests : ℕ
  pub p50 : Option ℕ
  pub p95 : Option ℕ
  pub p99 : Option ℕ
  pub successful_requests : ℕ
  pub expected_4xx_responses : ℕ
  pub unexpected_failures : ℕ

unfoldable pub summary : List Result → Summary
unfolding percentile
summary results = record {
  requests = length results;
  p50 = percentile (map (λ r. r.latency) results) 50;
  p95 = percentile (map (λ r. r.latency) results) 95;
  p99 = percentile (map (λ r. r.latency) results) 99;
  successful_requests = count (λ r. r.expected) results;
  expected_4xx_responses = count (λ r. is_expected_4xx r.category && r.expected) results;
  unexpected_failures = count (λ r. not r.expected) results;
}

-- `return 1 if unexpected else 0`
unfoldable pub exit_code : List Result → ℕ
exit_code results = if count (λ r. not r.expected) results == 0 then 0 else 1

-- The script ends with a usage error, with a traceback, or with its summary and its exit code.
pub data Outcome : Type 0 where
  usage : UsageError → Outcome
  crashed : Outcome
  reported : Summary → ℕ → Outcome

unfoldable pub report : Option (List Result) → Outcome
unfolding summary exit_code
report none = crashed
report (some results) = reported (summary results) (exit_code results)

abbrev answer_unless : Option UsageError → Outcome → Outcome
answer_unless none answer = answer
answer_unless (some error) answer = usage error

-- The results of `main`, and what it makes of them.
unfoldable pub main : (Text → Text) → Args → (ℕ → ℕ × Reply) → Outcome
unfolding check_args run report
main scheme args replies =
    let results = run (to_ℕ args.requests) args.base_url args.more_urls args.cached_ip replies in
    answer_unless (check_args scheme args) (report results)
