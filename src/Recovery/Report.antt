-- ===== src/Recovery/Report.antt =====
-- The entries of `result` in verify-pod-recovery.py, without its times. The counters are written with their keys
-- sorted, so that their order does not matter.
use arvan_ip_country_api.Prelude.{
  ℕ, ◌≡◌, refl, Bool, true, false, not, Option, none, some, List, [], ◌∷◌, any, length, arith,
  Bool-cases, inl, inr, if◌then◌else◌,
}
use arvan_ip_country_api.Recovery.{
  Pod, Failure, Tally, Outcome, recovered, ready_pods, has_name, distinct_nodes,
  unexpected_failures, requests, last_inventory, has_recovered,
}
use arvan_ip_country_api.Recovery.Success.{IsBack}

-- `next((pod for pod in pods if test(pod)), None)`
unfoldable pub next_pod : (Pod → Bool) → List Pod → Option Pod
next_pod test [] = none
next_pod test (p ∷ ps) = let rest = next_pod test ps in if test p then some p else rest

pub record Report : Type 0 where
  pub deleted_pod : Pod
  pub replacement_pod : Option Pod
  pub before : List Pod
  pub after : List Pod
  pub ready_replicas_after : ℕ
  pub distinct_nodes_after : ℕ
  pub requests : ℕ
  pub status_codes : List (ℕ × ℕ)
  pub failure_types : List (Failure × ℕ)
  pub unexpected_failures : ℕ
  pub recovered : Bool

abbrev pub is_new : List Pod → Pod → Bool
is_new before p = not (has_name p.name before)

unfoldable pub report : List Pod → Pod → Outcome → Tally → Report
unfolding next_pod distinct_nodes requests unexpected_failures
report before deleted outcome tally =
    let ready_after = ready_pods (last_inventory outcome) in
    record {
      deleted_pod = deleted;
      replacement_pod = next_pod (is_new before) ready_after;
      before = before;
      after = last_inventory outcome;
      ready_replicas_after = length ready_after;
      distinct_nodes_after = distinct_nodes ready_after;
      requests = requests tally;
      status_codes = tally.status_codes;
      failure_types = tally.failures;
      unexpected_failures = unexpected_failures tally;
      recovered = has_recovered outcome;
    }

-- A pod that passes both tests, and is the one that is found.
record Found (test : Pod → Bool) (pods : List Pod) : Type 0 where
  pod : Pod
  found : next_pod test (ready_pods pods) ≡ some pod
  passes : test pod ≡ true
  is_ready : pod.ready ≡ true

find : (test : Pod → Bool) (pods : List Pod) → any test (ready_pods pods) ≡ true → Found test pods
unfolding next_pod
find test [] h = cc
find test (p ∷ ps) h = elim (Bool-cases p.ready) [
  | inr n ↦
      let rest = find test ps (ground arith) in
      record {
        pod = rest.pod;
        found = ground (arith, rest.found);
        passes = rest.passes;
        is_ready = rest.is_ready;
      }
  | inl y ↦ elim (Bool-cases (test p)) [
    | inl t ↦ record { pod = p; found = ground arith; passes = t; is_ready = y }
    | inr f ↦
        let rest = find test ps (ground arith) in
        record {
          pod = rest.pod;
          found = ground (arith, rest.found);
          passes = rest.passes;
          is_ready = rest.is_ready;
        }
  ]
]

-- What the report says of a recovery: a new pod that is ready is named as the replacement, and two are ready.
pub record Shows (before : List Pod) (r : Report) : Type 0 where
  pub replacement : Pod
  pub named : r.replacement_pod ≡ some replacement
  pub new : has_name replacement.name before ≡ false
  pub ready : replacement.ready ≡ true
  pub two_ready : r.ready_replicas_after ≡ 2
  pub says : r.recovered ≡ true

pub report-Shows :
    (before : List Pod) (deleted : Pod) (pods : List Pod) (tally : Tally)
    → IsBack before deleted pods
    → Shows before (report before deleted (recovered pods) tally)
unfolding report
report-Shows before deleted pods tally b =
    let p = find (is_new before) pods b.replaced in
    record {
      replacement = p.pod;
      named = p.found;
      new = ground (arith, p.passes);
      ready = p.is_ready;
      two_ready = b.two_ready;
      says = refl;
    }
