-- ===== src/Traffic/Latencies.antt =====
-- The percentiles of a run that the command line accepts.
use arvan_ip_country_api.Prelude.{
  ℕ, zero, suc, ◌+◌, ◌*◌, ◌≤◌, ◌<◌, ◌≡◌, refl, ◌∙◌, inl, inr, true, false, Bool, Option, ◌||◌, none,
  some, List, [], ◌∷◌, ◌++◌, map, all, ◌↔◌, leb, ltb, length, length-append, arith, Bool-cases,
}
use arvan_ip_country_api.Text.{Text, rstrip_slash}
use arvan_ip_country_api.Config.Integers.{ℤ, pos, negsuc, in_range, to_ℕ}
use arvan_ip_country_api.Traffic.{
  Args, Reply, response, http_error, failure, uncaught, Result, Summary, Outcome, crashed, reported,
  report, request_for, base_url_for, judge, execute, add_result, check_args, run, summary,
  exit_code, main,
}
use arvan_ip_country_api.Traffic.Verdict.{summary_lem}
use arvan_ip_country_api.Traffic.Ranks.{count_by, IsPercentile, percentile-IsPercentile}

count-below :
    (v w : ℕ) (xs : List ℕ) → w < v → count_by (λ y. leb y w) xs ≤ count_by (λ y. ltb y v) xs
count-below v w [] h = omega arith
count-below v w (x ∷ xs) h = ground (arith, count-below v w xs)

times_mono : (p q n : ℕ) → p ≤ q → p * n ≤ q * n
times_mono p q zero h = omega arith
times_mono p q (suc n) h =
    let (e, f) : (p * suc n ≡ p * n + p) × (q * suc n ≡ q * n + q) = (omega arith, omega arith) in
    rw (e, f) (omega (arith, times_mono p q n h))

-- A higher quantile has no smaller rank.
IsPercentile-le :
    (xs : List ℕ) (p q v w : ℕ) → p ≤ q → IsPercentile xs p v → IsPercentile xs q w → v ≤ w
IsPercentile-le xs p q v w h a b = elim (Bool-cases (leb v w)) [
  | inl y ↦ ground arith
  | inr n ↦
      let lt : w < v = ground arith in
      absurd
        (omega (arith, count-below v w xs lt, a.below, b.reached, times_mono p q (length xs) h))
]

-- Whether one of the first `n` requests ends in an exception that is not caught.
abbrev pub is_uncaught : Reply → Bool
is_uncaught (uncaught name) = true
is_uncaught _ = false

abbrev pub any_uncaught : ℕ → (ℕ → ℕ × Reply) → Bool
any_uncaught zero replies = false
any_uncaught (suc n) replies = any_uncaught n replies || is_uncaught (replies n).1

-- A run of `n` requests: an exception, or `n` results.
abbrev pub Ran : ℕ → Bool → Option (List Result) → Type 0
Ran n true o = o ≡ none
Ran n false o = (results : List Result) × (o ≡ some results) × (length results ≡ n)

Ran-add_result :
    (n : ℕ) (b : Bool) (o : Option (List Result)) (r : Result)
    → Ran n b o
    → Ran (suc n) (b || false) (add_result o (some r))
Ran-add_result n true o r h = rw h refl
Ran-add_result n false o r (results, e, len) =
    (results ++ r ∷ [], rw e refl, length-append results (r ∷ []) ∙ omega (arith, len))

add_result-none : (o : Option (List Result)) → add_result o none ≡ none
add_result-none none = refl
add_result-none (some results) = refl

Ran-true : (n : ℕ) (b : Bool) (o : Option (List Result)) → o ≡ none → Ran n (b || true) o
Ran-true n true o h = h
Ran-true n false o h = h

module _ (first : Text) (rest : List Text) (cached_ip : Text) (replies : ℕ → ℕ × Reply) where
  run-Ran : (n : ℕ) → Ran n (any_uncaught n replies) (run n first rest cached_ip replies)
  unfolding run execute
  run-Ran zero = ([], refl, refl)
  run-Ran (suc n) = by_reply (replies n) (run-Ran n)
    where
      by_reply :
          (p : ℕ × Reply)
          → Ran n (any_uncaught n replies) (run n first rest cached_ip replies)
          → Ran (suc n) (any_uncaught n replies || is_uncaught p.1) (
              add_result (run n first rest cached_ip replies) (
                judge
                  (rstrip_slash (base_url_for first rest n))
                  (request_for n (rstrip_slash (base_url_for first rest n)) cached_ip)
                  p.0
                  p.1))
      by_reply (t, response code) h = Ran-add_result n _ _ _ h
      by_reply (t, http_error code) h = Ran-add_result n _ _ _ h
      by_reply (t, failure name) h = Ran-add_result n _ _ _ h
      by_reply (t, uncaught name) h = Ran-true (suc n) _ _ (add_result-none _)

length-map : {A B : Type 0} (f : A → B) (xs : List A) → length (map f xs) ≡ length xs
length-map f [] = refl
length-map f (x ∷ xs) = omega (arith, length-map f xs)

-- The three percentiles of a summary, in order.
pub record HasPercentiles (latencies : List ℕ) (s : Summary) : Type 0 where
  pub median : ℕ
  pub high : ℕ
  pub highest : ℕ
  pub p50 : s.p50 ≡ some median
  pub p95 : s.p95 ≡ some high
  pub p99 : s.p99 ≡ some highest
  pub median_rank : IsPercentile latencies 50 median
  pub high_rank : IsPercentile latencies 95 high
  pub highest_rank : IsPercentile latencies 99 highest
  pub ordered : (median ≤ high) × (high ≤ highest)

abbrev pub latencies_of : List Result → List ℕ
latencies_of results = map (λ r. r.latency) results

summary-HasPercentiles :
    (results : List Result)
    → 1 ≤ length results
    → HasPercentiles (latencies_of results) (summary results)
unfolding summary
summary-HasPercentiles results h =
    let xs = latencies_of results in
    let some_values : 1 ≤ length xs = rw (length-map (λ (r : Result). r.latency) results) h in
    let (a, ea, ra) = percentile-IsPercentile xs 50 some_values (omega arith) (omega arith) in
    let (b, eb, rb) = percentile-IsPercentile xs 95 some_values (omega arith) (omega arith) in
    let (c, ec, rc) = percentile-IsPercentile xs 99 some_values (omega arith) (omega arith) in
    record {
      median = a;
      high = b;
      highest = c;
      p50 = ea;
      p95 = eb;
      p99 = ec;
      median_rank = ra;
      high_rank = rb;
      highest_rank = rc;
      ordered = (
        IsPercentile-le xs 50 95 a b (omega arith) ra rb,
        IsPercentile-le xs 95 99 b c (omega arith) rb rc,
      );
    }

-- What a run with these results reports.
pub record Reports (args : Args) (results : List Result) (s : Summary) (code : ℕ) : Type 0 where
  pub requests : s.requests ≡ to_ℕ args.requests
  pub bounded : (1 ≤ s.requests) × (s.requests ≤ 10000)
  pub percentiles : HasPercentiles (latencies_of results) s
  pub outcomes : s.successful_requests + s.unexpected_failures ≡ s.requests
  pub code_iff : (code ≡ 0) ↔ (all (λ r. r.expected) results ≡ true)

accepted :
    (scheme : Text → Text) (args : Args)
    → check_args scheme args ≡ none
    → in_range 1 10000 args.requests ≡ true
unfolding check_args
accepted scheme args h = ground arith

bounds_of : (z : ℤ) → in_range 1 10000 z ≡ true → (1 ≤ to_ℕ z) × (to_ℕ z ≤ 10000)
bounds_of (pos n) h = ground arith
bounds_of (negsuc n) h = cc

run-Reports :
    (args : Args) (results : List Result)
    → (1 ≤ to_ℕ args.requests) × (to_ℕ args.requests ≤ 10000)
    → length results ≡ to_ℕ args.requests
    → Reports args results (summary results) (exit_code results)
unfolding summary
run-Reports args results b e = record {
  requests = e;
  bounded = rw e b;
  percentiles = summary-HasPercentiles results (rw e b.0);
  outcomes = (summary_lem results).0;
  code_iff = (summary_lem results).1;
}

-- The end of a run, by whether one of the exceptions of its requests is not caught.
abbrev pub Ends : Args → (ℕ → ℕ × Reply) → Bool → Outcome → Type 0
Ends args replies true o = o ≡ crashed
Ends args replies false o =
    (results : List Result) × (s : Summary) × (code : ℕ) × (run (to_ℕ args.requests) args.base_url
        args.more_urls args.cached_ip replies
      ≡ some results)
    × (o ≡ reported s code)
    × Reports args results s code

-- A run that the command line accepts crashes if the exception of one of its requests is not caught. Otherwise it
-- reports: between 1 and 10000 requests, as many as asked for; the three percentiles of their latencies, which are
-- nearest ranks and ascend; successes and failures that add up to the requests; and the exit code 0 exactly if
-- every result was expected.
pub main-Reports :
    (scheme : Text → Text) (args : Args) (replies : ℕ → ℕ × Reply)
    → check_args scheme args ≡ none
    → Ends args replies (any_uncaught (to_ℕ args.requests) replies) (main scheme args replies)
unfolding main report
main-Reports scheme args replies h = rw h (
    by_run (any_uncaught (to_ℕ args.requests) replies)
      (run-Ran args.base_url args.more_urls args.cached_ip replies (to_ℕ args.requests)))
  where
    by_run :
        (b : Bool)
        → Ran
            (to_ℕ args.requests)
            b
            (run (to_ℕ args.requests) args.base_url args.more_urls args.cached_ip replies)
        → Ends args replies b
            (report (run (to_ℕ args.requests) args.base_url args.more_urls args.cached_ip replies))
    by_run true e = rw e refl
    by_run false (results, e, len) = (
      results,
      summary results,
      exit_code results,
      e,
      rw e refl,
      run-Reports args results (bounds_of args.requests (accepted scheme args h)) len,
    )
