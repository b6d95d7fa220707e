-- ===== src/Traffic/Verdict.antt =====
-- What the summary and the exit code say of the results.
use arvan_ip_country_api.Prelude.{
  ◌+◌, ◌≡◌, ◌↔◌, refl, Bool, true, not, List, [], ◌∷◌, all, length, ==_iff, arith,
}
use arvan_ip_country_api.Traffic.{Result, count, summary, exit_code}

count-not :
    (test : Result → Bool) (rs : List Result)
    → count test rs + count (λ r. not (test r)) rs ≡ length rs
unfolding count
count-not test [] = refl
count-not test (r ∷ rs) = ground (arith, count-not test rs)

count-zero :
    (rs : List Result) → (count (λ r. not r.expected) rs ≡ 0) ↔ (all (λ r. r.expected) rs ≡ true)
unfolding count
count-zero [] = (λ h. refl, λ h. refl)
count-zero (r ∷ rs) = ground (arith, count-zero rs)

-- The successes and the failures add up to the requests, and the exit code is 0 exactly if every result
-- was expected.
pub summary_lem :
    (results : List Result)
    → ((summary results).successful_requests + (summary results).unexpected_failures
        ≡ (summary results).requests)
      × ((exit_code results ≡ 0) ↔ (all (λ r. r.expected) results ≡ true))
unfolding summary exit_code
summary_lem results = (
  count-not (λ r. r.expected) results,
  ground (arith, count-zero results, ==_iff (count (λ r. not r.expected) results) 0),
)
