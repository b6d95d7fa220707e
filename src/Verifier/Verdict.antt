-- ===== src/Verifier/Verdict.antt =====
-- What the checks and the exit code say.
use mathlib.Core.Option
use arvan_ip_country_api.Prelude.{
  ◌≡◌, refl, Bool, true, not, ◌&&◌, ◌||◌, Option, none, some, List, [], ◌∷◌, all, arith, Bool-cases,
  inl, inr,
}
use arvan_ip_country_api.Text.{Text, codes}
use arvan_ip_country_api.Json.{Json, object, get_field}
use arvan_ip_country_api.Verifier.{Python, values_from_result}
use arvan_ip_country_api.Verifier.Checks.{
  Check, Reply, body, failure, judge_values, judge_reply, judge_data, is_success, check_dashboards,
}
use arvan_ip_country_api.Verifier.Runs.{Passes, PassesCheck, uids_of, check_dashboards-Passes}

-- A useful check is valid and finite, a legitimate zero is useful, and a finite check is valid.
abbrev pub is_coherent : Check → Bool
is_coherent c =
    (not c.useful || (c.valid && c.finite))
    && (not c.legitimate_zero || c.useful)
    && (not c.finite || c.valid)

module _ {F : Type 0} (python : Python F) where
  judge_values-coherent :
      (uid title rendered : Text) (allow : Bool) (values : List F)
      → is_coherent (judge_values python uid title rendered allow values) ≡ true
  unfolding judge_values
  judge_values-coherent uid title rendered allow values = ground arith

  judge_data-coherent :
      (uid title rendered : Text) (allow : Bool) (d : Option Json)
      → PassesCheck is_coherent (judge_data python uid title rendered allow d)
  judge_data-coherent uid title rendered allow none = tt
  judge_data-coherent uid title rendered allow (some (object fields)) =
      go (values_from_result python fields)
    where
      go :
          (o : Option (List F))
          → PassesCheck is_coherent (Option.map (judge_values python uid title rendered allow) o)
      go none = tt
      go (some values) = judge_values-coherent uid title rendered allow values
  judge_data-coherent uid title rendered allow (some _) = tt

  judge_reply-coherent :
      (uid title rendered : Text) (allow : Bool) (r : Reply)
      → PassesCheck is_coherent (judge_reply python uid title rendered allow r)
  unfolding judge_reply
  judge_reply-coherent uid title rendered allow (failure name) = refl
  judge_reply-coherent uid title rendered allow (body (object fields)) =
      elim (Bool-cases (is_success python (get_field (codes "status") fields))) [
        | inl e ↦
            rw e (judge_data-coherent uid title rendered allow (get_field (codes "data") fields))
        | inr e ↦ rw e refl
      ]
  judge_reply-coherent uid title rendered allow (body _) = tt

  module _ {W : Type 0} (query : Text → W → Reply × W) (namespace : Text) where
    -- Whatever Prometheus answers, each check that a run makes is coherent: a useful one is valid and
    -- finite, a legitimate zero is useful, and a finite one is valid.
    pub check_dashboards-coherent :
        (dashboards : List (Text × Json)) (checks : List Check) (w : W)
        → all is_coherent checks ≡ true
        → Passes is_coherent (check_dashboards python query namespace dashboards checks w).0
    check_dashboards-coherent dashboards checks w h =
        check_dashboards-Passes python is_coherent query namespace (λ uid. true)
          (λ uid title rendered allow r g. judge_reply-coherent uid title rendered allow r)
          dashboards checks w (every dashboards) h
      where
        every : (ds : List (Text × Json)) → all (λ uid. true) (uids_of ds) ≡ true
        every [] = refl
        every ((uid, payload) ∷ more) = every more
