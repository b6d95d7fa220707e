-- ===== src/Recovery/Counts.antt =====
-- What the counters count.
use arvan_ip_country_api.Prelude.{
  ℕ, suc, ◌+◌, ◌≡◌, refl, ◌∙◌, Bool, String, true, false, not, ◌&&◌, List, [], ◌∷◌, ◌==◌, all,
  length, arith, Bool-cases, inl, inr, if◌then◌else◌, ◌↔◌,
}
use arvan_ip_country_api.Traffic.{Reply, response, http_error, failure, uncaught}
use arvan_ip_country_api.Recovery.{
  http, exception, failure_eq, bump, total, Tally, count_reply, count_replies, unexpected_failures,
  requests,
}

total-bump {ℓ} :
    {K : Type ℓ} (eq : K → K → Bool) (key : K) (c : List (K × ℕ))
    → total (bump eq key c) ≡ suc (total c)
unfolding total bump
total-bump eq key [] = refl
total-bump eq key ((k, n) ∷ c) = ground (arith, total-bump eq key c)

-- A reply that a lookup should get, and one that came with a status.
abbrev pub is_good : Reply → Bool
is_good (response code) = code == 200
is_good _ = false

abbrev pub has_status : Reply → Bool
has_status (failure name) = false
has_status (uncaught name) = false
has_status _ = true

abbrev pub how_many : (Reply → Bool) → List Reply → ℕ
how_many p [] = 0
how_many p (r ∷ rs) = (if p r then 1 else 0) + how_many p rs

abbrev pub no_counts : Tally
no_counts = record { status_codes = []; failures = [] }

-- The replies before the exception that ends the thread.
abbrev pub before_uncaught : List Reply → List Reply
before_uncaught [] = []
before_uncaught (uncaught name ∷ rs) = []
before_uncaught (r ∷ rs) = r ∷ before_uncaught rs

-- What a list of replies adds to the counters.
record Adds (rs : List Reply) (t t' : Tally) : Type 0 where
  statuses : total t'.status_codes ≡ total t.status_codes + how_many has_status rs
  failures : total t'.failures ≡ total t.failures + how_many (λ r. not (is_good r)) rs

response-Adds : (code : ℕ) (t : Tally) → Adds (response code ∷ []) t (count_reply (response code) t)
unfolding count_reply
response-Adds code t = elim (Bool-cases (code == 200)) [
  | inl e ↦ record {
    statuses = rw e (total-bump ◌==◌ code t.status_codes ∙ omega arith);
    failures = rw e (omega arith);
  }
  | inr e ↦ record {
    statuses = rw e (total-bump ◌==◌ code t.status_codes ∙ omega arith);
    failures = rw e (total-bump failure_eq (http code) t.failures ∙ omega arith);
  }
]

http_error-Adds :
    (code : ℕ) (t : Tally) → Adds (http_error code ∷ []) t (count_reply (http_error code) t)
unfolding count_reply
http_error-Adds code t = record {
  statuses = total-bump ◌==◌ code t.status_codes ∙ omega arith;
  failures = total-bump failure_eq (http code) t.failures ∙ omega arith;
}

failure-Adds :
    (name : String) (t : Tally) → Adds (failure name ∷ []) t (count_reply (failure name) t)
unfolding count_reply
failure-Adds name t = record {
  statuses = omega arith;
  failures = total-bump failure_eq (exception name) t.failures ∙ omega arith;
}

Adds-trans :
    (r : Reply) (rs : List Reply) (t u v : Tally)
    → Adds (r ∷ []) t u
    → Adds rs u v
    → Adds (r ∷ rs) t v
Adds-trans r rs t u v a b = record {
  statuses = omega (arith, a.statuses, b.statuses);
  failures = omega (arith, a.failures, b.failures);
}

count_replies-Adds :
    (rs : List Reply) (t : Tally) → Adds (before_uncaught rs) t (count_replies rs t)
unfolding count_replies
count_replies-Adds [] t = record { statuses = omega arith; failures = omega arith }
count_replies-Adds (uncaught name ∷ rs) t = record {
  statuses = omega arith;
  failures = omega arith;
}
count_replies-Adds (response code ∷ rs) t =
    Adds-trans (response code) _ t _ _ (response-Adds code t) (count_replies-Adds rs _)
count_replies-Adds (http_error code ∷ rs) t =
    Adds-trans (http_error code) _ t _ _ (http_error-Adds code t) (count_replies-Adds rs _)
count_replies-Adds (failure name ∷ rs) t =
    Adds-trans (failure name) _ t _ _ (failure-Adds name t) (count_replies-Adds rs _)

abbrev pub is_counted_twice : Reply → Bool
is_counted_twice r = has_status r && not (is_good r)

split_replies :
    (rs : List Reply)
    → how_many has_status (before_uncaught rs)
        + how_many (λ r. not (is_good r)) (before_uncaught rs)
      ≡ length (before_uncaught rs) + how_many is_counted_twice (before_uncaught rs)
split_replies [] = refl
split_replies (response code ∷ rs) = ground (arith, split_replies rs)
split_replies (http_error code ∷ rs) = ground (arith, split_replies rs)
split_replies (failure name ∷ rs) = ground (arith, split_replies rs)
split_replies (uncaught name ∷ rs) = refl

-- Of the requests before the one whose exception ends the thread, if there is one: `unexpected_failures` is the
-- number of those that were not answered with status 200. The entry `requests` counts a request twice that was
-- answered with another status: it is the number of requests and of those answers together.
pub requests_lem :
    (rs : List Reply)
    → (unexpected_failures (count_replies rs no_counts)
        ≡ how_many (λ r. not (is_good r)) (before_uncaught rs))
      × (requests (count_replies rs no_counts)
          ≡ length (before_uncaught rs) + how_many is_counted_twice (before_uncaught rs))
unfolding unexpected_failures requests total
requests_lem rs =
    let adds = count_replies-Adds rs no_counts in
    (omega (arith, adds.failures), omega (arith, adds.statuses, adds.failures, split_replies rs))

-- No failure at all means that every request was answered with status 200, up to an exception that ends the
-- thread.
pub no_failures_iff :
    (rs : List Reply)
    → (unexpected_failures (count_replies rs no_counts) ≡ 0)
      ↔ (all is_good (before_uncaught rs) ≡ true)
no_failures_iff rs = rw (requests_lem rs).0 (all_good (before_uncaught rs))
  where
    all_good :
        (rs : List Reply) → (how_many (λ r. not (is_good r)) rs ≡ 0) ↔ (all is_good rs ≡ true)
    all_good [] = (λ h. refl, λ h. refl)
    all_good (r ∷ rs) = ground (arith, all_good rs)
