-- ===== src/Verifier/Totals.antt =====
-- The counts of the summary, of all checks and for each dashboard.
pub mod Complete
use arvan_ip_country_api.Prelude.{
  ℕ, ◌+◌, ◌≡◌, refl, sym, ◌∙◌, Bool, true, not, ◌&&◌, List, [], ◌∷◌, all, length, filter_by, arith,
  if◌then◌else◌,
}
use arvan_ip_country_api.Text.{Text, text_eq}
use arvan_ip_country_api.Verifier.Checks.{Check, invalid, empty, unexplained_empty, non_finite}
use arvan_ip_country_api.Verifier.Verdict.{is_coherent}
use arvan_ip_country_api.Verifier.Summary.{how_many}

-- `summary`, without the parts that are objects
pub record Totals : Type 0 where
  pub total_expressions : ℕ
  pub valid_expressions : ℕ
  pub useful_data_expressions : ℕ
  pub legitimate_zero_results : ℕ
  pub empty_expressions : ℕ
  pub allowed_empty_expressions : ℕ
  pub unexplained_empty_expressions : ℕ
  pub parse_or_api_errors : ℕ
  pub non_finite_expressions : ℕ

unfoldable pub summary : List Check → Totals
summary checks = record {
  total_expressions = length checks;
  valid_expressions = how_many (λ c. c.valid) checks;
  useful_data_expressions = how_many (λ c. c.useful) checks;
  legitimate_zero_results = how_many (λ c. c.legitimate_zero) checks;
  empty_expressions = length (empty checks);
  allowed_empty_expressions = how_many (λ c. c.empty_allowed) (empty checks);
  unexplained_empty_expressions = length (unexplained_empty checks);
  parse_or_api_errors = length (invalid checks);
  non_finite_expressions = length (non_finite checks);
}

-- An entry of `summary["dashboard_results"]`
pub record Group : Type 0 where
  pub total : ℕ
  pub useful : ℕ
  pub legitimate_zero : ℕ
  pub unexplained_empty : ℕ
  pub api_errors : ℕ
  pub non_finite : ℕ

abbrev group : List Check → Group
group items = record {
  total = length items;
  useful = how_many (λ c. c.useful) items;
  legitimate_zero = how_many (λ c. c.legitimate_zero) items;
  unexplained_empty = how_many (λ c. c.valid && not c.useful && not c.empty_allowed) items;
  api_errors = how_many (λ c. not c.valid) items;
  non_finite = how_many (λ c. not c.finite) items;
}

unfoldable pub dashboard_result : List Check → Text → Group
dashboard_result checks uid = group (filter_by (λ c. text_eq c.dashboard uid) checks)

-- The numbers of a group, added up.
abbrev pub sum_over : (Group → ℕ) → List Check → List Text → ℕ
sum_over f checks [] = 0
sum_over f checks (uid ∷ uids) = f (dashboard_result checks uid) + sum_over f checks uids

-- How often a dashboard is named.
abbrev pub times : List Text → Text → ℕ
times [] uid = 0
times (u ∷ us) uid = (if text_eq uid u then 1 else 0) + times us uid

abbrev pub NamedOnce : List Text → List Check → Type 0
NamedOnce uids [] = Unit
NamedOnce uids (c ∷ cs) = (times uids c.dashboard ≡ 1) × NamedOnce uids cs

-- The summary adds up, and so do its parts for the dashboards.
pub record AddsUp (checks : List Check) (uids : List Text) : Type 0 where
  pub validity :
      (summary checks).valid_expressions + (summary checks).parse_or_api_errors
      ≡ (summary checks).total_expressions
  pub usefulness :
      (summary checks).useful_data_expressions + (summary checks).empty_expressions
      ≡ (summary checks).valid_expressions
  pub emptiness :
      (summary checks).allowed_empty_expressions + (summary checks).unexplained_empty_expressions
      ≡ (summary checks).empty_expressions
  pub totals : sum_over (λ g. g.total) checks uids ≡ (summary checks).total_expressions
  pub useful : sum_over (λ g. g.useful) checks uids ≡ (summary checks).useful_data_expressions
  pub errors : sum_over (λ g. g.api_errors) checks uids ≡ (summary checks).parse_or_api_errors
  pub unexplained :
      sum_over (λ g. g.unexplained_empty) checks uids
      ≡ (summary checks).unexplained_empty_expressions
  pub non_finite :
      sum_over (λ g. g.non_finite) checks uids ≡ (summary checks).non_finite_expressions
  pub zeros :
      sum_over (λ g. g.legitimate_zero) checks uids ≡ (summary checks).legitimate_zero_results

length-filter_by :
    (p : Check → Bool) (checks : List Check) → length (filter_by p checks) ≡ how_many p checks
length-filter_by p [] = refl
length-filter_by p (c ∷ checks) = ground (arith, length-filter_by p checks)

-- The checks of the dashboards that pass a test.
abbrev counted : (Check → Bool) → List Check → List Text → ℕ
counted p checks [] = 0
counted p checks (uid ∷ uids) =
    how_many p (filter_by (λ c. text_eq c.dashboard uid) checks) + counted p checks uids

counted-cons :
    (p : Check → Bool) (c : Check) (checks : List Check) (uids : List Text)
    → counted p (c ∷ checks) uids
      ≡ (if p c then times uids c.dashboard else 0) + counted p checks uids
counted-cons p c checks [] = ground arith
counted-cons p c checks (uid ∷ uids) = ground (arith, counted-cons p c checks uids)

counted-nil : (p : Check → Bool) (uids : List Text) → counted p [] uids ≡ 0
counted-nil p [] = refl
counted-nil p (uid ∷ uids) = omega (arith, counted-nil p uids)

counted_lem :
    (p : Check → Bool) (checks : List Check) (uids : List Text)
    → NamedOnce uids checks
    → counted p checks uids ≡ how_many p checks
counted_lem p [] uids h = counted-nil p uids
counted_lem p (c ∷ checks) uids (h, hs) =
    ground (arith, counted-cons p c checks uids, counted_lem p checks uids hs)

validity_lem :
    (checks : List Check) → how_many (λ c. c.valid) checks + length (invalid checks) ≡ length checks
validity_lem [] = refl
validity_lem (c ∷ checks) = ground (arith, validity_lem checks)

usefulness_lem :
    (checks : List Check)
    → all is_coherent checks ≡ true
    → how_many (λ c. c.useful) checks + length (empty checks) ≡ how_many (λ c. c.valid) checks
usefulness_lem [] h = refl
usefulness_lem (c ∷ checks) h = ground (arith, usefulness_lem checks)

emptiness_lem :
    (checks : List Check)
    → how_many (λ c. c.empty_allowed) checks + length (filter_by (λ c. not c.empty_allowed) checks)
      ≡ length checks
emptiness_lem [] = refl
emptiness_lem (c ∷ checks) = ground (arith, emptiness_lem checks)

sum_over-counted :
    (f : Group → ℕ) (p : Check → Bool)
    → ((items : List Check) → f (group items) ≡ how_many p items)
    → (checks : List Check) (uids : List Text) → sum_over f checks uids ≡ counted p checks uids
unfolding dashboard_result
sum_over-counted f p h checks [] = refl
sum_over-counted f p h checks (uid ∷ uids) =
    rw (h (filter_by (λ c. text_eq c.dashboard uid) checks), sum_over-counted f p h checks uids)
      refl

length-how_many : (items : List Check) → length items ≡ how_many (λ c. true) items
length-how_many [] = refl
length-how_many (c ∷ items) = omega (arith, length-how_many items)

abbrev is_unexplained : Check → Bool
is_unexplained c = c.valid && not c.useful && not c.empty_allowed

unexplained_lem :
    (checks : List Check) → how_many is_unexplained checks ≡ length (unexplained_empty checks)
unexplained_lem [] = refl
unexplained_lem (c ∷ checks) = ground (arith, unexplained_lem checks)

-- For coherent checks, and a list that names the dashboard of each check once: the valid expressions and the errors
-- add up to all, the useful and the empty ones to the valid ones, and the empty ones that are allowed and that are
-- unexplained to the empty ones; and each of the six numbers of the dashboards adds up to that of the summary.
pub summary-AddsUp :
    (checks : List Check) (uids : List Text)
    → all is_coherent checks ≡ true
    → NamedOnce uids checks
    → AddsUp checks uids
unfolding summary
summary-AddsUp checks uids h once = record {
  validity = validity_lem checks;
  usefulness = usefulness_lem checks h;
  emptiness = emptiness_lem (empty checks);
  totals = by_dashboard (λ g. g.total) (λ c. true) length-how_many ∙ sym (length-how_many checks);
  useful = by_dashboard (λ g. g.useful) (λ c. c.useful) (λ items. refl);
  errors =
      by_dashboard (λ g. g.api_errors) (λ c. not c.valid) (λ items. refl)
      ∙ sym (length-filter_by (λ c. not c.valid) checks);
  unexplained =
      by_dashboard (λ g. g.unexplained_empty) is_unexplained (λ items. refl)
      ∙ unexplained_lem checks;
  non_finite =
      by_dashboard (λ g. g.non_finite) (λ c. not c.finite) (λ items. refl)
      ∙ sym (length-filter_by (λ c. not c.finite) checks);
  zeros = by_dashboard (λ g. g.legitimate_zero) (λ c. c.legitimate_zero) (λ items. refl);
}
  where
    by_dashboard :
        (f : Group → ℕ) (p : Check → Bool)
        → ((items : List Check) → f (group items) ≡ how_many p items)
        → sum_over f checks uids ≡ how_many p checks
    by_dashboard f p e = sum_over-counted f p e checks uids ∙ counted_lem p checks uids once
