-- ===== src/Verifier/Totals/Complete.antt =====
-- The summary of a run adds up: its checks are coherent, and each one names a dashboard of the run.
use mathlib.Core.Option
use arvan_ip_country_api.Prelude.{
  ◌≡◌, refl, Bool, true, Option, none, some, List, [], ◌∷◌, all, ◌==◌, ==_iff, arith, subst,
  Bool-cases, inl, inr,
}
use arvan_ip_country_api.Text.{Text, codes}
use arvan_ip_country_api.Json.{Json, object, get_field}
use arvan_ip_country_api.Verifier.{Python, values_from_result}
use arvan_ip_country_api.Verifier.Checks.{
  Check, Reply, body, failure, judge_values, judge_data, judge_reply, is_success, check_dashboards,
}
use arvan_ip_country_api.Verifier.Runs.{Passes, PassesCheck, uids_of, check_dashboards-Passes}
use arvan_ip_country_api.Verifier.Verdict.{is_coherent, check_dashboards-coherent}
use arvan_ip_country_api.Verifier.Totals.{times, NamedOnce, AddsUp, summary-AddsUp}

module _ (uids : List Text) where
  -- A text that the list has once.
  abbrev pub is_once : Text → Bool
  is_once uid = times uids uid == 1

  abbrev names_once : Check → Bool
  names_once c = is_once c.dashboard

  NamedOnce-of : (checks : List Check) → all names_once checks ≡ true → NamedOnce uids checks
  NamedOnce-of [] h = tt
  NamedOnce-of (c ∷ checks) h =
      ((==_iff (times uids c.dashboard) 1).0 (ground arith), NamedOnce-of checks (ground arith))

  module _ {F : Type 0} (python : Python F) where
    judge_data-names :
        (uid title rendered : Text) (allow : Bool) (d : Option Json)
        → is_once uid ≡ true
        → PassesCheck names_once (judge_data python uid title rendered allow d)
    unfolding judge_values
    judge_data-names uid title rendered allow none h = tt
    judge_data-names uid title rendered allow (some (object fields)) h =
        go (values_from_result python fields)
      where
        go :
            (o : Option (List F))
            → PassesCheck names_once (Option.map (judge_values python uid title rendered allow) o)
        go none = tt
        go (some values) = h
    judge_data-names uid title rendered allow (some _) h = tt

    judge_reply-names :
        (uid title rendered : Text) (allow : Bool) (r : Reply)
        → is_once uid ≡ true
        → PassesCheck names_once (judge_reply python uid title rendered allow r)
    unfolding judge_reply
    judge_reply-names uid title rendered allow (failure name) h = h
    judge_reply-names uid title rendered allow (body (object fields)) h =
        elim (Bool-cases (is_success python (get_field (codes "status") fields))) [
          | inl e ↦
              rw e (judge_data-names uid title rendered allow (get_field (codes "data") fields) h)
          | inr e ↦ rw e h
        ]
    judge_reply-names uid title rendered allow (body _) h = tt

module _ {F : Type 0} (python : Python F) {W : Type 0} (query : Text → W → Reply × W)
    (namespace : Text) where
  -- Whatever Prometheus answers, the summary of a run that no exception ends adds up, and so do its parts for the
  -- dashboards, if no two dashboards have one uid.
  pub check_dashboards-AddsUp :
      (dashboards : List (Text × Json)) (w : W) (checks : List Check)
      → all (is_once (uids_of dashboards)) (uids_of dashboards) ≡ true
      → (check_dashboards python query namespace dashboards [] w).0 ≡ some checks
      → AddsUp checks (uids_of dashboards)
  check_dashboards-AddsUp dashboards w checks h run =
      let uids = uids_of dashboards in
      summary-AddsUp checks uids
        (subst (Passes is_coherent) run
          (check_dashboards-coherent python query namespace dashboards [] w refl))
        (NamedOnce-of uids checks (
          subst (Passes (names_once uids)) run (
            check_dashboards-Passes python (names_once uids) query namespace (is_once uids)
              (judge_reply-names uids python) dashboards [] w h refl)))
